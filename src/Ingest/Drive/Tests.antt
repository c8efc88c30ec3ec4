-- ===== src/Ingest/Drive/Tests.antt =====
-- src/services/migration-orchestrator.service.ts: runs on concrete values.
use musanad_contracts_backen.Base.{
  Option, ◌≤◌, ℕ, ◌-◌, ◌/◌, ◌+◌, ◌<◌, ◌≡◌, ◌⊎◌, refl, String, true, false, none, some, [], ◌∷◌,
  codes, ltb, leb, ◌==◌, ◌=s◌, if◌then◌else◌,
}
use musanad_contracts_backen.Chars.{trim_start, trim}
use musanad_contracts_backen.Js.{Runtime, str, field, end, str_includes}
use musanad_contracts_backen.Calls.{Units, returned, thrown, units}
use musanad_contracts_backen.Ingest.Drive.Session.{
  DriveFileMeta, Extraction, ExtractedFields, Answers, BatchContext, Session, ask, perform, attempt,
  ◌>>=◌,
}
use musanad_contracts_backen.Ingest.Drive.Fields.{
  language, contract_type_of, amount, sanitise, merge_fields, avg_confidence, without_separators,
}
use musanad_contracts_backen.Ingest.Drive.Fields.Laws.{IsAllowed}
use musanad_contracts_backen.Ingest.Drive.Parties.{
  reconnect, ensure_fresh_token, find_or_create_party,
}
use musanad_contracts_backen.Ingest.Drive.Parties.Laws.{
  IsNew, find_or_create_party-again, ensure_fresh_token-fresh,
}
use musanad_contracts_backen.Ingest.Drive.Files.{
  on_imported, no_fields, llm_fields, heuristic_extract_fields, process_single_file,
}
use musanad_contracts_backen.Ingest.Drive.Files.Laws.{
  Reports, process_single_file-Reports, merged_type-IsAllowed,
}
use musanad_contracts_backen.Ingest.Drive.Batch.{no_counts, process_files}
use musanad_contracts_backen.Ingest.Drive.Batch.Laws.{
  total, with_record, Gives, process_files-counts,
}

-- Whole numbers in place of doubles.
abbrev whole_numbers : Runtime
whole_numbers = record {
  Num = ℕ;
  less = ltb;
  at_most = leb;
  sub = λ a b. a - b;
  quot = λ a b. a / b;
  abs = λ a. a;
  is_finite = λ a. true;
  falsy = λ a. a == 0;
  of_ℕ = λ a. a;
  nan = 0;
  infinity = 100000;
  show = λ a. "7";
  read = λ s. if s =s "250000" then 250000 else 0;
  date_ms = λ s. 0;
  regex_test = λ p s. some (str_includes s p);
}

abbrev same_string : String → String
same_string s = s

abbrev same_units : Units → Units
same_units s = s

abbrev no_patterns : String → String → ExtractedFields ℕ
no_patterns text name = no_fields

abbrev hash : Units → String
hash s = "sha"

abbrev drive_file : DriveFileMeta
drive_file = record {
  id = "f1";
  name = "Pipe supply.pdf";
  mime_type = "application/pdf";
  size = 10;
  modified_time = "2026-01-01T00:00:00Z";
}

-- A scanned of one page, of which the model reads the counterparty.
abbrev scanned : Extraction
scanned = record {
  extracted_text = "supply";
  page_count = 1;
  ocr_used = true;
  ocr_confidence_avg = some 9000;
}

abbrev answers_now : (now : ℕ) → Answers ℕ
answers_now now = record {
  run = λ c. none;
  now = λ c. now;
  refreshed = λ c. returned ("fresh", 9000000);
  files = λ c. returned (drive_file ∷ []);
  record_id = λ c. returned 7;
  threshold = λ c. returned none;
  duplicate = λ c. returned (record { duplicate_kind = "none"; duplicate_of_record_id = none });
  content = λ c. returned [];
  staged = λ c. returned "uri";
  contract = λ c. returned (3, 4);
  extraction = λ c. returned scanned;
  uploaded = λ c. returned (some "txt");
  parsed = λ c. returned (field "counterpartyName" (str " Gulf ") end);
  party = λ c. returned none;
  new_party = λ c. returned (some 5);
}

abbrev folder : BatchContext
folder = record { refresh_token = some "r"; folder_id = "d" }

abbrev start : Session ℕ
start = record { calls = []; access_token = "old"; expires_at = 100000; party_cache = [] }

fields_tests :
    (contract_type_of "a statement of work" ≡ "sow")
    × (language "Contract" ≡ "en")
    × (avg_confidence 300 2 false none ≡ 80)
    × (avg_confidence 0 0 true (some 9999) ≡ 95)
    × (amount whole_numbers (some (str "250,000")) ≡ some 250000)
unfolding contract_type_of language avg_confidence amount without_separators
fields_tests = (refl, refl, refl, refl, refl)

process_single_file-Reports_example :
    Reports 7 80 on_imported
      (process_single_file whole_numbers same_string same_units no_patterns hash
        (answers_now 0)
        folder
        drive_file
        7
        80
        start).1.calls
unfolding process_single_file ◌>>=◌ ask perform attempt merge_fields sanitise trim units
    find_or_create_party avg_confidence
process_single_file-Reports_example =
    process_single_file-Reports whole_numbers same_string same_units no_patterns hash
      (answers_now 0) folder drive_file 7 80 start on_imported refl

merged_type-IsAllowed_example :
    (t : String) × ((merge_fields
        (llm_fields whole_numbers same_string same_units no_patterns hash
          (answers_now 0)
          folder
          (returned (field "contractType" (str "lease") end)))
        (heuristic_extract_fields whole_numbers same_string same_units no_patterns hash
          (answers_now 0)
          folder
          "a lease"
          "a.pdf")).contract_type
      ≡ some t)
    × IsAllowed t
merged_type-IsAllowed_example =
    merged_type-IsAllowed whole_numbers same_string same_units no_patterns hash (answers_now 0)
      folder (returned (field "contractType" (str "lease") end)) "a lease" "a.pdf"

process_files-counts_example :
    Gives whole_numbers same_string same_units no_patterns hash
      (answers_now 0)
      folder
      (λ c'. total c' ≡ total no_counts + with_record (drive_file ∷ []) (("f1", 7) ∷ []))
      (process_files whole_numbers same_string same_units no_patterns hash
        (answers_now 0)
        folder
        (drive_file ∷ [])
        (("f1", 7) ∷ [])
        80
        no_counts
        start)
process_files-counts_example =
    process_files-counts whole_numbers same_string same_units no_patterns hash (answers_now 0)
      folder (λ calls. refl) (drive_file ∷ []) (("f1", 7) ∷ []) 80 no_counts start

find_or_create_party-again_example :
    let s' = (find_or_create_party (answers_now 0) same_units (codes "Gulf") start).1 in
    find_or_create_party (answers_now 0) same_units (codes " Gulf ") s' ≡ (returned (some 5), s')
unfolding find_or_create_party trim trim_start ask attempt ◌>>=◌
find_or_create_party-again_example =
    find_or_create_party-again (answers_now 0) same_units (codes "Gulf") (codes " Gulf ") 4 start
      refl (λ e. absurd cc) refl

ensure_fresh_token-fresh_example :
    let made = ensure_fresh_token (answers_now 90000) folder start in
    (150000 < 100000 → made ≡ (returned "old", start))
    × (100000 ≤ 150000
        → (((◌≡◌ {A = Option String} (some "r") none)
              ⊎ (◌≡◌ {A = Option String} (some "r") (some "")))
            → made ≡ (thrown reconnect, start))
          × ((t : String)
              → made.0 ≡ returned t
              → (expiry : ℕ) × (token : String) × IsNew (answers_now 90000) t expiry token made.1))
ensure_fresh_token-fresh_example = ensure_fresh_token-fresh (answers_now 90000) folder start
