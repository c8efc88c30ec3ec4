-- ===== src/Ingest/Queues/Laws.antt =====
-- src/workers/migration-sync.worker.ts: what a sweep counts.
use musanad_contracts_backen.Base.{ℕ, ◌+◌, ◌≡◌, ap, ◌∙◌, Option, none, some, List, [], ◌∷◌, arith}
use musanad_contracts_backen.Calls.{Units, returned}
use musanad_contracts_backen.Ingest.Queues.{
  PendingBatchRow, MigrationStats, BatchCall, call_of, count_batch, sweep_batches,
  run_migration_sweep,
}

abbrev one_if_thrown : Option Units → ℕ
one_if_thrown none = 0
one_if_thrown (some message) = 1

abbrev one_if_done : Option Units → ℕ
one_if_done none = 1
one_if_done (some message) = 0

-- The batches whose call throws, and those whose call returns.
unfoldable pub failing : (BatchCall → Option Units) → List PendingBatchRow → ℕ
failing process [] = 0
failing process (b ∷ bs) = one_if_thrown (process (call_of b)) + failing process bs

unfoldable pub succeeding : (BatchCall → Option Units) → List PendingBatchRow → ℕ
succeeding process [] = 0
succeeding process (b ∷ bs) = one_if_done (process (call_of b)) + succeeding process bs

count_batch-counts :
    (o : Option Units) (stats : MigrationStats)
    → ((count_batch o stats).processed ≡ stats.processed + one_if_done o)
      × ((count_batch o stats).failed ≡ stats.failed + one_if_thrown o)
count_batch-counts none stats = (omega arith, omega arith)
count_batch-counts (some m) stats = (omega arith, omega arith)

sweep_batches-counts :
    (process : BatchCall → Option Units) (bs : List PendingBatchRow) (stats : MigrationStats)
    → ((sweep_batches process bs stats).processed ≡ stats.processed + succeeding process bs)
      × ((sweep_batches process bs stats).failed ≡ stats.failed + failing process bs)
unfolding sweep_batches failing succeeding
sweep_batches-counts process [] stats = (omega arith, omega arith)
sweep_batches-counts process (b ∷ bs) stats =
    let (done, caught) = count_batch-counts (process (call_of b)) stats in
    let (p, f) = sweep_batches-counts process bs (count_batch (process (call_of b)) stats) in
    (p ∙ omega (arith, done), f ∙ omega (arith, caught))

abbrev none_yet : MigrationStats
none_yet = record { processed = 0; failed = 0 }

-- A sweep whose query returned counts the batches whose call returned and those whose call threw, a
-- failure of one batch does not keep another from its call.
pub run_migration_sweep-counts :
    (process : BatchCall → Option Units) (bs : List PendingBatchRow)
    → run_migration_sweep process (returned bs)
      ≡ returned (record { processed = succeeding process bs; failed = failing process bs })
unfolding run_migration_sweep
run_migration_sweep-counts process bs =
    let (p, f) = sweep_batches-counts process bs none_yet in
    ap
      (λ n.
        returned (record { processed = n; failed = (sweep_batches process bs none_yet).failed }))
      (p ∙ omega arith)
    ∙ ap (λ n. returned (record { processed = succeeding process bs; failed = n }))
        (f ∙ omega arith)
