-- ===== src/Ingest/Drive/Files.antt =====
-- src/services/migration-orchestrator.service.ts: `processSingleFile`, the way of one file from the
-- drive to a contract. Of its four callbacks one is called, as the last thing, on every path that
-- returns: it is the value given here.
pub mod Laws
use musanad_contracts_backen.Base.{
  ℕ, String, Bool, true, false, not, ◌&&◌, Option, none, some, List, [], ◌∷◌, codes, take, leb,
  ◌==◌, ◌=s◌, length, if◌then◌else◌,
}
use musanad_contracts_backen.Js.{Runtime, Fields}
use musanad_contracts_backen.Calls.{Units, Outcome, returned, thrown, units}
use musanad_contracts_backen.Ingest.Drive.Session.{
  DriveFileMeta, Extraction, ExtractedFields, DuplicateCheck, downloading, ingesting, imported,
  needs_review, record_failed, DuplicateStatus, skipped_duplicate_id, skipped_duplicate_hash,
  check_duplicates, mark_duplicate, update_status, download_file, set_sha256, stage_buffer,
  create_contract, extract_document, save_body, upload_text, ingestion_complete, create_attachment,
  extract_fields, update_contract, link_contract, flag_logical_duplicate, request_clauses,
  compute_risk, Answers, BatchContext, Action, pure, ◌>>=◌, ◌>>◌, ask, perform, attempt,
}
use musanad_contracts_backen.Ingest.Drive.Fields.{
  language, contract_type_of, sanitise, merge_fields, field_count, avg_confidence,
}
use musanad_contracts_backen.Ingest.Drive.Parties.{ensure_fresh_token, find_or_create_party}

-- Which callback is called.
pub data Verdict : Type 0 where
  on_imported on_review on_failed on_skipped : Verdict

abbrev pub number_of : Option ℕ → ℕ
number_of none = 0
number_of (some n) = n

-- `dup.duplicateKind === kind && Number(dup.duplicateOfRecordId) !== Number(recordId)`
abbrev pub is_duplicate : String → ℕ → DuplicateCheck → Bool
is_duplicate kind record_id dup =
    dup.duplicate_kind =s kind && not (number_of dup.duplicate_of_record_id == record_id)

abbrev pub no_fields : {N : Type 0} → ExtractedFields N
no_fields = record {
  title_en = none;
  contract_type = none;
  counterparty_name = none;
  our_party_name = none;
  value_aed = none;
  start_date = none;
  end_date = none;
}

-- `to_lower` and `lower_units` are `toLowerCase`; `patterns` gives what the regular expressions of the
-- heuristic find, from the text and the file's name; `sha256` is the library's hash.
module _ (R : Runtime) (to_lower : String → String) (lower_units : Units → Units)
    (patterns : String → String → ExtractedFields R.Num) (sha256 : Units → String)
    (answers : Answers R.Num) (ctx : BatchContext) where
  open R use {Num}

  -- `heuristicExtractFields`, but for the language.
  abbrev pub heuristic_extract_fields : String → String → ExtractedFields Num
  heuristic_extract_fields text name = record (patterns text name) {
    contract_type = some (contract_type_of (to_lower text));
  }

  -- `llmExtractFields`: an exception gives no fields.
  abbrev pub llm_fields : Outcome (Fields Num) → ExtractedFields Num
  llm_fields (returned parsed) = sanitise R to_lower parsed
  llm_fields (thrown m) = no_fields

  abbrev pub party_id : Option Units → Action Num (Option ℕ)
  party_id none = pure none
  party_id (some []) = pure none
  party_id (some (c ∷ name)) = find_or_create_party answers lower_units (c ∷ name)

  abbrev pub uploaded_uri : Outcome (Option String) → Option String
  uploaded_uri (returned uri) = uri
  uploaded_uri (thrown m) = none

  -- The final status, and its callback.
  unfoldable pub finish : ℕ → Bool → Action Num Verdict
  finish record_id true = do
    perform answers (update_status record_id imported none)
    pure on_imported
  finish record_id false = do
    perform answers (update_status record_id needs_review none)
    pure on_review

  -- Steps 8 to 11 and the final status.
  unfoldable pub link_and_finish :
      (record_id threshold contract version confidence fields : ℕ) → Action Num Verdict
  unfolding finish
  link_and_finish record_id threshold contract version confidence fields = do
    perform answers (link_contract record_id contract version confidence fields)
    attempt (perform answers (flag_logical_duplicate record_id))
    attempt (perform answers (request_clauses version))
    attempt (perform answers (compute_risk contract))
    finish record_id (leb threshold confidence)

  abbrev pub confidence_of : Extraction → ℕ
  confidence_of r =
      avg_confidence (length (units r.extracted_text)) r.page_count r.ocr_used r.ocr_confidence_avg

  abbrev pub body_of : Bool → Extraction → Option Units
  body_of wanted r = if wanted then some (take 200000 (units r.extracted_text)) else none

  -- Steps 6 and 7, and what follows, for the fields that were found.
  unfoldable pub apply_fields :
      (record_id threshold contract version : ℕ)
      → Extraction
      → ExtractedFields Num
      → Action Num Verdict
  unfolding link_and_finish
  apply_fields record_id threshold contract version r fields = do
    ours ← party_id fields.our_party_name
    theirs ← party_id fields.counterparty_name
    let lang = language r.extracted_text
    let arabic = lang =s "ar"
    perform answers (
        update_contract contract fields lang ours theirs (body_of (not arabic) r)
          (body_of arabic r))
    link_and_finish record_id threshold contract version (confidence_of r) (field_count fields)

  abbrev pub engine_of : Extraction → String
  engine_of r = if r.ocr_used then "tesseract" else "digital_pdf"

  -- Steps 1 to 5, and what follows.
  unfoldable pub keep_extraction :
      (file : DriveFileMeta) (record_id threshold contract version : ℕ)
      → String
      → Extraction
      → Action Num Verdict
  unfolding apply_fields
  keep_extraction file record_id threshold contract version uri r = do
    perform answers (save_body version (take 200000 (units r.extracted_text)) r)
    sent ← attempt (ask answers.uploaded (upload_text contract r.extracted_text))
    attempt (perform answers (ingestion_complete version (uploaded_uri sent) r (engine_of r)))
    attempt (perform answers (create_attachment contract (take 200 (units file.name)) file uri))
    parsed ←
        attempt
          (ask answers.parsed (extract_fields (take 12000 (units r.extracted_text)) file.name))
    apply_fields record_id threshold contract version r
        (merge_fields (llm_fields parsed) (heuristic_extract_fields r.extracted_text file.name))

  -- What the extraction gave: its exception fails the record.
  unfoldable pub after_extract :
      (file : DriveFileMeta) (record_id threshold contract version : ℕ)
      → String
      → Outcome Extraction
      → Action Num Verdict
  unfolding keep_extraction
  after_extract file record_id threshold contract version uri (thrown message) = do
    perform answers (update_status record_id record_failed (some (take 500 message)))
    pure on_failed
  after_extract file record_id threshold contract version uri (returned r) =
      keep_extraction file record_id threshold contract version uri r

  -- From the status `ingesting` on.
  unfoldable pub ingest_file :
      (file : DriveFileMeta) (record_id threshold : ℕ) → Units → Action Num Verdict
  unfolding after_extract
  ingest_file file record_id threshold content = do
    perform answers (update_status record_id ingesting none)
    uri ← ask answers.staged (stage_buffer file content)
    (contract, version) ← ask answers.contract (create_contract (take 200 (units file.name)))
    r ← attempt (ask answers.extraction (extract_document contract version uri file.mime_type))
    after_extract file record_id threshold contract version uri r

  unfoldable pub skip_file : ℕ → DuplicateStatus → DuplicateCheck → Action Num Verdict
  skip_file record_id status dup = do
    perform answers (mark_duplicate record_id status dup.duplicate_of_record_id)
    pure on_skipped

  -- From the status `downloading` on.
  unfoldable pub download_and_ingest :
      (file : DriveFileMeta) (record_id threshold : ℕ) → Action Num Verdict
  unfolding ingest_file skip_file ensure_fresh_token
  download_and_ingest file record_id threshold = do
    perform answers (update_status record_id downloading none)
    token ← ensure_fresh_token answers ctx
    content ← ask answers.content (download_file token file.id)
    perform answers (set_sha256 record_id (sha256 content))
    dup ← ask answers.duplicate (check_duplicates file.id (some (sha256 content)))
    if is_duplicate "hash_match" record_id dup
        then skip_file record_id skipped_duplicate_hash dup
        else ingest_file file record_id threshold content

  unfoldable pub process_single_file :
      (file : DriveFileMeta) (record_id threshold : ℕ) → Action Num Verdict
  unfolding download_and_ingest skip_file
  process_single_file file record_id threshold = do
    dup ← ask answers.duplicate (check_duplicates file.id none)
    if is_duplicate "id_match" record_id dup
        then skip_file record_id skipped_duplicate_id dup
        else download_and_ingest file record_id threshold
