-- ===== src/Ingest/Health.antt =====
-- src/workers/source-health.worker.ts: the health check of one source of signals. What the adapter's own
-- check gives is a parameter.
use musanad_contracts_backen.Base.{ℕ, Bool, Option, none, some, [], ◌∷◌, codes, if◌then◌else◌}
use musanad_contracts_backen.Calls.{
  Units, Outcome, returned, thrown, guard_passes, start_driver, stop_driver,
}
use musanad_contracts_backen.Ingest.Feeds.{AdapterClass, DueSourceRow, build_adapter_for_row}

pub data HealthState : Type 0 where
  healthy degraded failing unauthorised : HealthState

pub record HealthCheckResult : Type 0 where
  pub state : HealthState
  pub error : Option Units

-- A call of `fn_source_health_record`; its exception is only logged.
pub record HealthRecord : Type 0 where
  pub source : ℕ
  pub state : HealthState
  pub error_msg : Option Units
  pub signals_24h : ℕ

abbrev pub non_empty_error : Option Units → Option Units
non_empty_error none = none
non_empty_error (some []) = none
non_empty_error (some (c ∷ s)) = some (c ∷ s)

abbrev pub checked : Outcome HealthCheckResult → HealthState × Option Units
checked (returned r) = (r.state, non_empty_error r.error)
checked (thrown m) = (failing, some m)

abbrev pub verdict_on : Option AdapterClass → Outcome HealthCheckResult → HealthState × Option Units
verdict_on none check = (failing, some (codes "adapter_not_implemented"))
verdict_on (some class) check = checked check

-- `countSignals24h`, for what its query gives; none: a value that is no finite number.
abbrev pub count_signals_24h : Outcome (Option ℕ) → ℕ
count_signals_24h (returned (some n)) = n
count_signals_24h (returned none) = 0
count_signals_24h (thrown m) = 0

-- `runHealthCheckForSource`: the record that is written, if any.
unfoldable pub run_health_check_for_source :
    (enabled : Outcome Bool)
    → DueSourceRow
    → Outcome HealthCheckResult
    → (signals : Outcome (Option ℕ)) → Option HealthRecord
unfolding guard_passes build_adapter_for_row
run_health_check_for_source enabled row check signals =
    let (state, error_msg) = verdict_on (build_adapter_for_row row) check in
    if guard_passes enabled
    then some (record {
      source = row.id;
      state = state;
      error_msg = error_msg;
      signals_24h = count_signals_24h signals;
    })
    else none

unfoldable pub start_source_health_worker :
    (test_mode switched_on valid running : Bool) → Bool × Bool
unfolding start_driver
start_source_health_worker test_mode switched_on valid running =
    start_driver test_mode switched_on valid running

unfoldable pub stop_source_health_worker : (running : Bool) → Bool
unfolding stop_driver
stop_source_health_worker running = stop_driver running
