-- ===== src/Ingest/Drive/Batch.antt =====
-- src/services/migration-orchestrator.service.ts: `processBatch` from the context of the batch on, which
-- `loadBatchContext` gives.
pub mod Laws
use musanad_contracts_backen.Base.{
  ℕ, zero, suc, ◌+◌, String, Bool, true, false, Option, none, some, List, [], ◌∷◌, take, length,
  ltb, ◌=s◌, if◌then◌else◌,
}
use musanad_contracts_backen.Js.{Runtime}
use musanad_contracts_backen.Calls.{Units, Outcome, returned, thrown}
use musanad_contracts_backen.Ingest.Drive.Session.{
  DriveFileMeta, ExtractedFields, BatchStatus, in_progress, completed, completed_with_errors,
  batch_failed, record_failed, Counts, set_batch_status, list_files, count_files, update_counts,
  create_record, read_threshold, update_status, touch_connection, Answers, BatchContext, Action,
  pure, raise, ◌>>=◌, ◌>>◌, ask, perform, attempt,
}
use musanad_contracts_backen.Ingest.Drive.Fields.{confidence_threshold}
use musanad_contracts_backen.Ingest.Drive.Parties.{ensure_fresh_token}
use musanad_contracts_backen.Ingest.Drive.Files.{
  Verdict, on_imported, on_review, on_failed, on_skipped, process_single_file,
}

-- `recordMap.get(id)`, of which 0 is taken for none; the newest entry stands first.
abbrev pub record_of : String → List (String × ℕ) → ℕ
record_of id [] = 0
record_of id ((k, n) ∷ records) = let rest = record_of id records in if k =s id then n else rest

-- The callbacks.
abbrev pub tally : Verdict → Counts → Counts
tally on_imported c = record c { imported_files = c.imported_files + 1 }
tally on_review c = record c { review_files = c.review_files + 1 }
tally on_failed c = record c { failed_files = c.failed_files + 1 }
tally on_skipped c = record c { skipped_files = c.skipped_files + 1 }

abbrev pub no_counts : Counts
no_counts = record { imported_files = 0; review_files = 0; failed_files = 0; skipped_files = 0 }

-- `finalStatus`
abbrev pub final_status : Counts → BatchStatus
final_status c = if ltb 0 c.failed_files then completed_with_errors else completed

module _ (R : Runtime) (to_lower : String → String) (lower_units : Units → Units)
    (patterns : String → String → ExtractedFields R.Num) (sha256 : Units → String)
    (answers : Answers R.Num) (ctx : BatchContext) where
  open R use {Num}

  -- Phase A: a record for every file.
  unfoldable pub register_files :
      List DriveFileMeta → List (String × ℕ) → Action Num (List (String × ℕ))
  register_files [] records = pure records
  register_files (f ∷ files) records = do
    id ← ask answers.record_id (create_record f)
    register_files files ((f.id, id) ∷ records)

  -- What became of one file, with the error handler of the loop.
  abbrev pub count_file : (record_id : ℕ) → Counts → Outcome Verdict → Action Num Counts
  count_file record_id counts (returned verdict) = pure (tally verdict counts)
  count_file record_id counts (thrown message) = do
    perform answers (update_status record_id record_failed (some (take 500 message)))
    pure (tally on_failed counts)

  -- One round of phase B for a file with a record.
  unfoldable pub process_file :
      DriveFileMeta → (record_id threshold : ℕ) → Counts → Action Num Counts
  unfolding process_single_file
  process_file f record_id threshold counts = do
    r ← attempt (
        process_single_file R to_lower lower_units patterns sha256 answers ctx f record_id
          threshold)
    counts' ← count_file record_id counts r
    perform answers (update_counts counts')
    pure counts'

  -- Phase B.
  unfoldable pub process_files :
      List DriveFileMeta → List (String × ℕ) → (threshold : ℕ) → Counts → Action Num Counts
  unfolding process_file
  process_files [] records threshold counts = pure counts
  process_files (f ∷ files) records threshold counts = elim (record_of f.id records) [
    | zero ↦ process_files files records threshold counts
    | suc n ↦ do
      counts' ← process_file f (suc n) threshold counts
      process_files files records threshold counts'
  ]

  -- The body of the outer `try`.
  unfoldable pub run_batch : Action Num Counts
  unfolding register_files process_files ensure_fresh_token
  run_batch = do
    perform answers (set_batch_status in_progress)
    token ← ensure_fresh_token answers ctx
    files ← ask answers.files (list_files token ctx.folder_id)
    perform answers (count_files (length files))
    records ← register_files files []
    threshold ← attempt (ask answers.threshold read_threshold)
    counts ← process_files files records (confidence_threshold threshold) no_counts
    perform answers (set_batch_status (final_status counts))
    perform answers touch_connection
    pure counts

  -- The outer `catch`, which throws what it caught, unless its own call throws.
  abbrev pub or_failed : Outcome Counts → Action Num Counts
  or_failed (returned counts) = pure counts
  or_failed (thrown message) = do perform answers (set_batch_status batch_failed); raise message

  -- `processBatch` from where its context is loaded on; an exception of the loading reaches no `try`.
  unfoldable pub process_batch : Action Num Counts
  unfolding run_batch
  process_batch = do r ← attempt run_batch; or_failed r
