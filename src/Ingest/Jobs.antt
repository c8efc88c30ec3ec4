-- ===== src/Ingest/Jobs.antt =====
-- src/workers/ingestion.worker.ts: one job, and a sweep over the pending jobs. A job is the sequence of
-- its calls, newest first; what each call gives is a parameter, which sees the calls up to it.
pub mod Laws
use musanad_contracts_backen.Base.{
  ℕ, suc, ◌+◌, String, Bool, true, false, Option, none, some, List, [], ◌∷◌, map, codes, take,
  length, ◌=s◌, if◌then◌else◌,
}
use musanad_contracts_backen.Calls.{
  Units, Outcome, returned, thrown, guard_passes, start_driver, stop_driver,
}

abbrev pub adnoc_tenant_id : String
adnoc_tenant_id = "00000000-0000-0000-0000-000000000001"

pub record PendingVersionRow : Type 0 where
  pub id : ℕ
  pub contract_id : ℕ
  pub version_number : ℕ
  pub file_uri : Option String
  pub file_mime : Option String
  pub tenant_id : Option String
  pub ingestion_attempt_count : ℕ

pub data InitialReviewStatus : Type 0 where
  pending_auto pending_human : InitialReviewStatus

-- `N` is the type of the numbers that are passed on only: the confidences.
pub record LowConfidencePage (N : Type 0) : Type 0 where
  pub page_no : ℕ
  pub tesseract_confidence : Option N
  pub tesseract_text : Option String
  pub gpt4o_text : Option String
  pub gpt4o_used : Bool
  pub initial_review_status : InitialReviewStatus

pub record DocumentIngestionResult (N : Type 0) : Type 0 where
  pub extracted_text : String
  pub extracted_text_uri : String
  pub page_count : ℕ
  pub ocr_used : Bool
  pub ocr_confidence_avg : Option N
  pub extraction_engine : String
  pub low_confidence_pages : List (LowConfidencePage N)

-- The calls of a job. All but `extract` are functions of the database.
pub data Call (N : Type 0) : Type 0 where
  module_enabled : (tenant key : String) → Call N
  ingest : (version : ℕ) (tenant : String) → Call N
  extract : (row : PendingVersionRow) (uri mime tenant : String) → Call N
  ingestion_complete : (version : ℕ) (tenant : String) → DocumentIngestionResult N → Call N
  ingestion_fail : (version : ℕ) (tenant : String) → Units → Call N
  review_queue_record : (version : ℕ) (tenant : String) → LowConfidencePage N → Call N

-- What the calls give; each sees the calls made, of which the newest is its own. `run` is the
-- message of what a call throws whose result is not read, or none.
pub record Answers (N : Type 0) : Type 0 where
  pub enabled : List (Call N) → Outcome Bool
  pub run : List (Call N) → Option Units
  pub extraction : List (Call N) → Outcome (DocumentIngestionResult N)

abbrev pub no_file : Units
no_file = codes "No file attachment found for ingestion"

abbrev pub no_completion : Units
no_completion = codes "Failed to persist completion state"

abbrev pub tenant_of : PendingVersionRow → String
tenant_of row = elim row.tenant_id [ none ↦ adnoc_tenant_id | some t ↦ t ]

-- `!s` on a text that may be null
abbrev pub present : Option String → Option String
present none = none
present (some s) = if s =s "" then none else some s

module _ {N : Type 0} (answers : Answers N) where
  -- `failJob`; that its call throws is only logged.
  unfoldable pub fail_job : ℕ → String → Units → List (Call N) → List (Call N)
  fail_job version tenant message calls = ingestion_fail version tenant (take 2000 message) ∷ calls

  -- `recordReviewPage` on each page in order; a call that throws is only logged.
  unfoldable pub record_review_pages :
      ℕ → String → List (LowConfidencePage N) → List (Call N) → List (Call N)
  record_review_pages version tenant [] calls = calls
  record_review_pages version tenant (page ∷ pages) calls =
      record_review_pages version tenant pages (review_queue_record version tenant page ∷ calls)

  -- Step 4, for what step 3 threw.
  abbrev pub after_complete :
      PendingVersionRow → DocumentIngestionResult N → Option Units → List (Call N) → List (Call N)
  after_complete row result (some message) calls =
      fail_job row.id (tenant_of row) no_completion calls
  after_complete row result none calls =
      record_review_pages row.id (tenant_of row) result.low_confidence_pages calls

  -- Step 3, for what the extraction gave.
  abbrev pub after_extract :
      PendingVersionRow → Outcome (DocumentIngestionResult N) → List (Call N) → List (Call N)
  after_extract row (thrown message) calls = fail_job row.id (tenant_of row) message calls
  after_extract row (returned result) calls =
      let calls' = ingestion_complete row.id (tenant_of row) result ∷ calls in
      after_complete row result (answers.run calls') calls'

  -- Step 2, for the two columns of the file.
  abbrev pub extract_file :
      PendingVersionRow → Option String → Option String → List (Call N) → List (Call N)
  extract_file row (some uri) (some mime) calls =
      let calls' = extract row uri mime (tenant_of row) ∷ calls in
      after_extract row (answers.extraction calls') calls'
  extract_file row none mime calls = fail_job row.id (tenant_of row) no_file calls
  extract_file row (some uri) none calls = fail_job row.id (tenant_of row) no_file calls

  -- Steps 2 to 4, for what step 1 threw.
  abbrev pub after_ingest : PendingVersionRow → Option Units → List (Call N) → List (Call N)
  after_ingest row (some message) calls = calls
  after_ingest row none calls =
      extract_file row (present row.file_uri) (present row.file_mime) calls

  unfoldable pub process_job : PendingVersionRow → List (Call N)
  unfolding guard_passes
  process_job row =
      let calls = module_enabled (tenant_of row) "impact_signals" ∷ [] in
      let calls' = ingest row.id (tenant_of row) ∷ calls in
      if guard_passes (answers.enabled calls)
      then after_ingest row (answers.run calls') calls'
      else calls

-- `fetchPendingJobs`, for what its transaction gives: an error that it catches is no jobs.
unfoldable pub fetch_pending_jobs : Outcome (List PendingVersionRow) → List PendingVersionRow
fetch_pending_jobs (returned rows) = rows
fetch_pending_jobs (thrown message) = []

pub record IngestionStats : Type 0 where
  pub processed : ℕ
  pub failed : ℕ

-- `runIngestionSweep`: the statistics, and the calls of each job. Two jobs at a time run at most; what
-- a job's calls give may depend on the job in any way, so no order between jobs is fixed.
unfoldable pub run_ingestion_sweep :
    {N : Type 0}
    → (PendingVersionRow → Answers N)
    → Outcome (List PendingVersionRow)
    → IngestionStats × List (List (Call N))
unfolding fetch_pending_jobs process_job
run_ingestion_sweep answers fetched =
    let jobs = fetch_pending_jobs fetched in
    (
      record { processed = length jobs; failed = 0 },
      map (λ row. process_job (answers row) row) jobs,
    )

unfoldable pub start_ingestion_worker : (test_mode switched_on running : Bool) → Bool × Bool
unfolding start_driver
start_ingestion_worker test_mode switched_on running =
    start_driver test_mode switched_on true running

unfoldable pub stop_ingestion_worker : (running : Bool) → Bool
unfolding stop_driver
stop_ingestion_worker running = stop_driver running
