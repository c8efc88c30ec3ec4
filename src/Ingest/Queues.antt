-- ===== src/Ingest/Queues.antt =====
-- src/workers/migration-sync.worker.ts and src/workers/clause-extraction.worker.ts: the sweeps over
-- queued batches and over versions whose clauses are not extracted yet.
pub mod Laws
use musanad_contracts_backen.Base.{
  ℕ, ◌+◌, String, Bool, true, false, Option, none, some, List, [], ◌∷◌, ◌=s◌, if◌then◌else◌,
}
use musanad_contracts_backen.Calls.{
  Units, Outcome, returned, thrown, guard_passes, start_driver, stop_driver,
}
use musanad_contracts_backen.Ingest.Jobs.{adnoc_tenant_id}

pub record PendingBatchRow : Type 0 where
  pub id : ℕ
  pub tenant_id : String

pub record MigrationStats : Type 0 where
  pub processed : ℕ
  pub failed : ℕ

-- A call of `processBatch`.
pub record BatchCall : Type 0 where
  pub batch_id : ℕ
  pub tenant_id : String

-- `b.tenant_id || ADNOC_TENANT_ID`
abbrev pub call_of : PendingBatchRow → BatchCall
call_of b = record {
  batch_id = b.id;
  tenant_id = if b.tenant_id =s "" then adnoc_tenant_id else b.tenant_id;
}

abbrev pub count_batch : Option Units → MigrationStats → MigrationStats
count_batch none stats = record stats { processed = stats.processed + 1 }
count_batch (some message) stats = record stats { failed = stats.failed + 1 }

-- The batches one by one, of which two run at a time at most; `process` is what a call throws, or
-- none.
unfoldable pub sweep_batches :
    (process : BatchCall → Option Units) → List PendingBatchRow → MigrationStats → MigrationStats
sweep_batches process [] stats = stats
sweep_batches process (b ∷ bs) stats =
    sweep_batches process bs (count_batch (process (call_of b)) stats)

-- `runMigrationSweep`, for what the query gives, whose exception is not caught.
unfoldable pub run_migration_sweep :
    (process : BatchCall → Option Units) → Outcome (List PendingBatchRow) → Outcome MigrationStats
unfolding sweep_batches
run_migration_sweep process (thrown message) = thrown message
run_migration_sweep process (returned batches) =
    returned (sweep_batches process batches (record { processed = 0; failed = 0 }))

-- The task that is returned, and whether one is held.
unfoldable pub start_migration_sync_worker : (test_mode switched_on running : Bool) → Bool × Bool
unfolding start_driver
start_migration_sync_worker test_mode switched_on running =
    start_driver test_mode switched_on true running

unfoldable pub stop_migration_sync_worker : (running : Bool) → Bool
unfolding stop_driver
stop_migration_sync_worker running = stop_driver running

pub record PendingExtractionRow : Type 0 where
  pub contract_version_id : ℕ
  pub extracted_text_uri : String
  pub contract_id : ℕ

-- The calls of a tick: the guard, and `extractClausesForVersion`.
pub data ExtractionCall : Type 0 where
  module_enabled : (tenant key : String) → ExtractionCall
  extract_clauses : (version : ℕ) (uri : String) (actor : ℕ) → ExtractionCall

-- The call for each row; that it throws is only logged.
unfoldable pub extract_rows : List PendingExtractionRow → List ExtractionCall
extract_rows [] = []
extract_rows (row ∷ rows) =
    extract_clauses row.contract_version_id row.extracted_text_uri 1 ∷ extract_rows rows

unfoldable pub process_tick :
    Outcome Bool → Outcome (List PendingExtractionRow) → List ExtractionCall
unfolding guard_passes extract_rows
process_tick enabled fetched =
    module_enabled adnoc_tenant_id "clauses"
    ∷ (if guard_passes enabled
        then elim fetched [ thrown m ↦ [] | returned rows ↦ extract_rows rows ]
        else [])

-- Whether a task is held after it; the start returns nothing.
unfoldable pub start_clause_extraction_worker : (test_mode switched_on running : Bool) → Bool
unfolding start_driver
start_clause_extraction_worker test_mode switched_on running =
    (start_driver test_mode switched_on true running).1

unfoldable pub stop_clause_extraction_worker : (running : Bool) → Bool
unfolding stop_driver
stop_clause_extraction_worker running = stop_driver running
