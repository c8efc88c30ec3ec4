-- ===== src/Workers/Eviction.antt =====
-- src/services/ai-insight-eviction.cron.service.ts: one eviction sweep, and the start and stop of its
-- cron driver. What the calls of the database give one after another is a parameter.
pub mod Laws
use musanad_contracts_backen.Base.{
  ℕ, zero, suc, ◌+◌, Bool, true, false, not, Option, none, some, ltb, if◌then◌else◌,
}

abbrev pub batch_size : ℕ
batch_size = 500

abbrev pub max_batches_per_sweep : ℕ
max_batches_per_sweep = 50

-- What a call of `fn_ai_insight_evict_expired` gives: an object with `evictedCount`, which may be
-- null, one with that under `data`, which may be missing, anything else, or an exception.
pub data Answer : Type 0 where
  bare : Option ℕ → Answer
  wrapped : Option (Option ℕ) → Answer
  nothing : Answer
  rejected : Answer

-- `result`; `none` is null.
abbrev pub result_of : Answer → Option (Option ℕ)
result_of (bare count) = some count
result_of (wrapped result) = result
result_of nothing = none
result_of rejected = none

-- `Number(result.evictedCount ?? 0)`
abbrev pub count_or_zero : Option ℕ → ℕ
count_or_zero none = 0
count_or_zero (some n) = n

pub record SweepStats : Type 0 where
  pub batches : ℕ
  pub total_evicted : ℕ

-- One round's end: break, or go on with the two counters. An exception and a null result break
-- alike.
abbrev pub after_answer : Option (Option ℕ) → SweepStats → SweepStats × Bool
after_answer none st = (st, false)
after_answer (some count) st =
    let n = count_or_zero count in
    (
      record { batches = st.batches + 1; total_evicted = st.total_evicted + n },
      not (ltb n batch_size),
    )

-- The loop; `left` is the cap less the batches so far, and the loop ends at the latest when it is 0.
unfoldable pub sweep_loop : (answer : ℕ → Answer) (left : ℕ) → SweepStats → SweepStats
sweep_loop answer zero st = st
sweep_loop answer (suc left) st =
    let (st', on) = after_answer (result_of (answer st.batches)) st in
    let rest = sweep_loop answer left st' in if on then rest else st'

-- `answer n` is what the call made after `n` batches gives.
unfoldable pub run_eviction_sweep : (ℕ → Answer) → SweepStats
unfolding sweep_loop
run_eviction_sweep answer =
    sweep_loop answer max_batches_per_sweep (record { batches = 0; total_evicted = 0 })

-- `startAiInsightEvictionCron` and `stopAiInsightEvictionCron`, for whether the environment is that
-- of tests and whether the expression is valid; the state is whether the driver runs.
unfoldable pub start_ai_insight_eviction_cron : (test_mode valid running : Bool) → Bool
start_ai_insight_eviction_cron test_mode valid running =
    if test_mode then running else if running then true else valid

unfoldable pub stop_ai_insight_eviction_cron : (running : Bool) → Bool
stop_ai_insight_eviction_cron running = if running then false else running
