-- ===== src/Ingest/Drive/Session.antt =====
-- src/services/migration-orchestrator.service.ts: what the import of a folder works on, the calls it
-- makes, and the monad in which they follow one another. A call that throws ends the step.
pub mod Laws
use musanad_contracts_backen.Base.{ℕ, String, Bool, Option, none, some, List, ◌∷◌}
use musanad_contracts_backen.Js.{Fields}
use musanad_contracts_backen.Calls.{Units, Outcome, returned, thrown, as_outcome}

pub record DriveFileMeta : Type 0 where
  pub id : String
  pub name : String
  pub mime_type : String
  pub size : ℕ
  pub modified_time : String

-- `ocr_confidence_avg` is a fraction of one, in ten-thousandths.
pub record Extraction : Type 0 where
  pub extracted_text : String
  pub page_count : ℕ
  pub ocr_used : Bool
  pub ocr_confidence_avg : Option ℕ

-- The fields that a model or the heuristic finds; `N` is the type of the amounts.
pub record ExtractedFields (N : Type 0) : Type 0 where
  pub title_en : Option Units
  pub contract_type : Option String
  pub counterparty_name : Option Units
  pub our_party_name : Option Units
  pub value_aed : Option N
  pub start_date : Option String
  pub end_date : Option String

-- `dupL1` and `dupL2`
pub record DuplicateCheck : Type 0 where
  pub duplicate_kind : String
  pub duplicate_of_record_id : Option ℕ

pub data BatchStatus : Type 0 where
  in_progress completed completed_with_errors batch_failed : BatchStatus

pub data RecordStatus : Type 0 where
  downloading ingesting imported needs_review record_failed : RecordStatus

pub data DuplicateStatus : Type 0 where
  skipped_duplicate_id skipped_duplicate_hash : DuplicateStatus

-- The four counters of a batch, in the order of `fn_migration_batch_update_counts`.
pub record Counts : Type 0 where
  pub imported_files : ℕ
  pub review_files : ℕ
  pub failed_files : ℕ
  pub skipped_files : ℕ

pub data Call (N : Type 0) : Type 0 where
  set_batch_status : BatchStatus → Call N
  refresh_access_token : String → Call N
  update_tokens : (access_token : String) (expires_at : ℕ) → Call N
  list_files : (access_token folder : String) → Call N
  count_files : ℕ → Call N
  update_counts : Counts → Call N
  create_record : DriveFileMeta → Call N
  read_threshold : Call N
  check_duplicates : (file : String) (sha256 : Option String) → Call N
  mark_duplicate : (record_id : ℕ) → DuplicateStatus → Option ℕ → Call N
  update_status : (record_id : ℕ) → RecordStatus → Option Units → Call N
  download_file : (access_token file : String) → Call N
  set_sha256 : (record_id : ℕ) → String → Call N
  stage_buffer : DriveFileMeta → Units → Call N
  create_contract : Units → Call N
  extract_document : (contract version : ℕ) (uri mime : String) → Call N
  save_body : (version : ℕ) → Units → Extraction → Call N
  upload_text : (contract : ℕ) → String → Call N
  ingestion_complete : (version : ℕ) → Option String → Extraction → String → Call N
  create_attachment : (contract : ℕ) → Units → DriveFileMeta → String → Call N
  extract_fields : Units → String → Call N
  lookup_party : Units → Call N
  create_party : Units → Call N
  update_contract :
      (contract : ℕ)
      → ExtractedFields N
      → (language : String) → (our_party counterparty : Option ℕ) → (body_en body_ar : Option Units)
      → Call N
  link_contract : (record_id contract version confidence field_count : ℕ) → Call N
  flag_logical_duplicate : (record_id : ℕ) → Call N
  request_clauses : (version : ℕ) → Call N
  compute_risk : (contract : ℕ) → Call N
  touch_connection : Call N

-- What the calls give: each sees the calls made, of which the newest is its own. `run` is the message
-- of what a call throws whose result is not read, or none.
pub record Answers (N : Type 0) : Type 0 where
  pub run : List (Call N) → Option Units
  pub now : List (Call N) → ℕ  -- Date.now()
  pub refreshed : List (Call N) → Outcome (String × ℕ)
  pub files : List (Call N) → Outcome (List DriveFileMeta)
  pub record_id : List (Call N) → Outcome ℕ
  pub threshold : List (Call N) → Outcome (Option ℕ)  -- none: no number stands there
  pub duplicate : List (Call N) → Outcome DuplicateCheck
  pub content : List (Call N) → Outcome Units
  pub staged : List (Call N) → Outcome String
  pub contract : List (Call N) → Outcome (ℕ × ℕ)
  pub extraction : List (Call N) → Outcome Extraction
  pub uploaded : List (Call N) → Outcome (Option String)  -- none: an error that is returned
  pub parsed : List (Call N) → Outcome (Fields N)  -- the model's answer, parsed as an object
  pub party : List (Call N) → Outcome (Option ℕ)  -- none: no row
  pub new_party : List (Call N) → Outcome (Option ℕ)  -- none: `Number(created?.id)` is not finite

-- What is fixed in `BatchContext`.
pub record BatchContext : Type 0 where
  pub refresh_token : Option String
  pub folder_id : String

-- The calls made, newest first, and what changes in `BatchContext`.
pub record Session (N : Type 0) : Type 0 where
  pub calls : List (Call N)
  pub access_token : String
  pub expires_at : ℕ
  pub party_cache : List (Units × ℕ)

abbrev pub Action : (N A : Type 0) → Type 0
Action N A = Session N → Outcome A × Session N

module _ {N : Type 0} where
  abbrev pub pure : {A : Type 0} → A → Action N A
  pure a s = (returned a, s)

  abbrev pub raise : {A : Type 0} → Units → Action N A
  raise m s = (thrown m, s)

  abbrev pub gets : {A : Type 0} → (Session N → A) → Action N A
  gets f s = (returned (f s), s)

  abbrev pub modify : (Session N → Session N) → Action N (Unit {0})
  modify f s = (returned tt, f s)

  -- What follows a step, for the step's outcome.
  abbrev pub follow :
      {A B : Type 0} → (A → Action N B) → Outcome A × Session N → Outcome B × Session N
  follow f (returned a, s) = f a s
  follow f (thrown m, s) = (thrown m, s)

  infixl 5 ◌>>=◌ ◌>>◌
  unfoldable pub ◌>>=◌ : {A B : Type 0} → Action N A → (A → Action N B) → Action N B
  ◌>>=◌ m f s = follow f (m s)

  abbrev pub ◌>>◌ : {A B : Type 0} → Action N A → Action N B → Action N B
  m >> k = m >>= λ _. k

  abbrev log : Call N → Session N → Session N
  log c s = record s { calls = c ∷ s.calls }

  -- A call whose answer is read.
  unfoldable pub ask : {A : Type 0} → (List (Call N) → Outcome A) → Call N → Action N A
  ask answer c s = (answer (c ∷ s.calls), log c s)

  -- A call whose answer is not read.
  unfoldable pub perform : Answers N → Call N → Action N (Unit {0})
  perform answers c s = (as_outcome (answers.run (c ∷ s.calls)), log c s)

  -- `try { … } catch`
  unfoldable pub attempt : {A : Type 0} → Action N A → Action N (Outcome A)
  attempt m s = let (r, t) = m s in (returned r, t)
