-- ===== src/Workers/Tests.antt =====
-- src/services/report-scheduler.service.ts, src/services/ai-insight-eviction.cron.service.ts and
-- src/workers/notification-retry.worker.ts, src/workers/correlation-evaluator.worker.ts: runs on concrete values.
use musanad_contracts_backen.Base.{
  inl, ℕ, zero, suc, ◌-◌, ◌*◌, ◌≤◌, ◌<◌, ◌≡◌, refl, String, Bool, true, false, Option, none, some,
  List, [], ◌∷◌, map, arith, ◌=s◌, if◌then◌else◌,
}
use musanad_contracts_backen.Workers.Scheduler.{
  pdf, ScheduledTemplate, started, stopped, Scheduler, listed, get, set, delete, scheduled_jobs,
  register, remove_unseen, refresh_schedules, stop_all, stop_report_scheduler,
}
use musanad_contracts_backen.Workers.Scheduler.Balance.{IsSound, starts, stops, refresh-IsSound}
use musanad_contracts_backen.Workers.Scheduler.Again.{refresh_again}
use musanad_contracts_backen.Workers.Eviction.{
  Answer, bare, wrapped, rejected, sweep_loop, run_eviction_sweep,
}
use musanad_contracts_backen.Workers.Eviction.Laws.{
  reported, IsFull, Reason, FromTable, least, run_eviction_sweep-counts, run_eviction_sweep-drains,
}
use musanad_contracts_backen.Calls.{Outcome, returned, thrown, guard_passes}
use musanad_contracts_backen.Workers.Correlation.{
  EvaluatedRule, EvaluationCall, rule_evaluate, Evaluation, rule_timeout_ms, process_signal,
}
use musanad_contracts_backen.Workers.Correlation.Laws.{
  IsAccounted, evaluations, process_signal-IsAccounted,
}
use musanad_contracts_backen.Workers.Retry.{
  RetryDueRow, Mail, due, process_batch, retry_all, retry_notification,
}
use musanad_contracts_backen.Workers.Retry.Laws.{updates}

-- Every text but the empty one is a valid expression.
abbrev valid : String → Bool
valid s = true

abbrev blank : String → Bool
blank s = s =s ""

abbrev template : ℕ → String → Bool → ScheduledTemplate
template n c on = record {
  id = n;
  template_id = "monthly";
  report_kind = pdf;
  schedule_cron = some c;
  is_scheduled = true;
  enabled = on;
}

abbrev templates : List ScheduledTemplate
templates = template 1 "0 9 * * *" true ∷ template 2 "" true ∷ template 3 "0 8 * * *" false ∷ []

abbrev before_scan : Scheduler
before_scan = record {
  entries = (3, record { cron = "0 8 * * *"; report_kind = pdf }) ∷ [];
  rescan = true;
  log = started 3 ∷ [];
}

scheduler_tests :
    ((refresh_schedules valid blank (listed (some templates)) before_scan).entries
      ≡ (1, record { cron = "0 9 * * *"; report_kind = pdf }) ∷ [])
    × ((refresh_schedules valid blank (listed (some templates)) before_scan).log
        ≡ stopped 3 ∷ started 1 ∷ started 3 ∷ [])
    × ((stop_report_scheduler before_scan).log ≡ stopped 3 ∷ started 3 ∷ [])
unfolding refresh_schedules scheduled_jobs register remove_unseen get set delete
    stop_report_scheduler stop_all
scheduler_tests = (refl, refl, refl)

refresh_again_example :
    refresh_schedules valid blank
      (listed (some templates))
      (refresh_schedules valid blank (listed (some templates)) before_scan)
    ≡ refresh_schedules valid blank (listed (some templates)) before_scan
unfolding scheduled_jobs
refresh_again_example = refresh_again valid blank (some templates) before_scan (refl, tt)

abbrev fresh_scheduler : Scheduler
fresh_scheduler = record { entries = []; rescan = false; log = [] }

fresh-IsSound : IsSound fresh_scheduler
unfolding get
fresh-IsSound = (λ k. omega arith, tt)

refresh-IsSound_example :
    IsSound (refresh_schedules valid blank (listed (some templates)) fresh_scheduler)
    × IsSound (stop_report_scheduler fresh_scheduler)
    × ((k : ℕ)
        → starts k (stop_report_scheduler fresh_scheduler).log
          ≡ stops k (stop_report_scheduler fresh_scheduler).log)
refresh-IsSound_example =
    refresh-IsSound valid blank (listed (some templates)) fresh_scheduler fresh-IsSound

-- Answers of a table with 700 rows that are due.
abbrev from_700 : ℕ → Answer
from_700 i = wrapped (some (some (least 500 (700 - 500 * i))))

eviction_tests :
    (run_eviction_sweep from_700 ≡ record { batches = 2; total_evicted = 700 })
    × (run_eviction_sweep (λ i. rejected) ≡ record { batches = 0; total_evicted = 0 })
    × (run_eviction_sweep (λ i. bare (some 500)) ≡ record { batches = 50; total_evicted = 25000 })
unfolding run_eviction_sweep sweep_loop
eviction_tests = (refl, refl, refl)

run_eviction_sweep-counts_example :
    let st = run_eviction_sweep from_700 in
    (st.batches ≤ 50)
    × (st.total_evicted ≡ reported from_700 0 st.batches)
    × ((j : ℕ) → suc j < st.batches → IsFull (from_700 j))
    × Reason from_700 0 st.batches 50
run_eviction_sweep-counts_example = run_eviction_sweep-counts from_700

from_700-FromTable : FromTable 700 from_700
from_700-FromTable i = inl refl

run_eviction_sweep-drains_example : (run_eviction_sweep from_700).total_evicted ≡ least 25000 700
run_eviction_sweep-drains_example = run_eviction_sweep-drains 700 from_700 from_700-FromTable

-- A mail that is refused, one that is taken, and a row of a capture channel.
abbrev row : ℕ → String → Option String → RetryDueRow
row n channel to = record {
  id = n;
  channel = channel;
  recipient_address = to;
  subject = none;
  body_rendered = "Notice";
  retry_count = 1;
  tenant_id = "t";
}

abbrev rows : List RetryDueRow
rows =
    row 1 "email" (some "ann@example.com")
    ∷ row 2 "email" (some "bob@example.com")
    ∷ row 3 "teams_capture" none
    ∷ row 4 "email" none
    ∷ []

abbrev from_address : String
from_address = "no-reply@musanad.local"

abbrev send : Mail → Option String
send m = if m.to =s "bob@example.com" then some "mailbox full" else none

abbrev shorten : String → String
shorten s = s

retry_tests :
    map (λ u. u.success) (updates (process_batch from_address send shorten (due (some rows))))
    ≡ true ∷ false ∷ true ∷ false ∷ []
unfolding process_batch retry_all retry_notification
retry_tests = refl

abbrev two_rules : List EvaluatedRule
two_rules =
    record { rule_id = 1; evaluation_timeout_seconds_override = some 2 }
    ∷ record { rule_id = 2; evaluation_timeout_seconds_override = none }
    ∷ []

-- The evaluation of rule 1 writes an error, all others run out of time.
abbrev race_of : List EvaluationCall → Outcome (Option Evaluation)
race_of (rule_evaluate s (suc zero) t ∷ calls) = returned (some (record { error_written = true }))
race_of _ = thrown []

process_signal-IsAccounted_example :
    let st = process_signal race_of 5 (returned true) two_rules in
    IsAccounted race_of 5 st
    × (evaluations st.calls ≡ map (λ rule. (rule.rule_id, rule_timeout_ms rule)) two_rules)
unfolding guard_passes
process_signal-IsAccounted_example =
    process_signal-IsAccounted race_of 5 (returned true) two_rules refl
