-- ===== src/Workers/Cases.antt =====
-- src/workers/risk-case-escalation.worker.ts, risk-case-auto-create.worker.ts,
-- risk-case-auto-dismiss.worker.ts, risk-triage-auto-escalate.worker.ts and
-- obligation-sla-escalation.worker.ts: the ticks of the workers on risk cases and obligations, and their
-- drivers.
pub mod Laws
mod Tests
use musanad_contracts_backen.Base.{
  ℕ, suc, ◌-◌, String, Bool, true, false, not, ◌&&◌, ◌||◌, Option, none, some, List, [], ◌∷◌, map,
  length, if◌then◌else◌,
}
use musanad_contracts_backen.Calls.{Units, Outcome, returned, thrown, guard_passes, stop_driver}
use musanad_contracts_backen.Js.{Runtime, Json, Throws, returns, ◌>>=◌, member, truthy}
use musanad_contracts_backen.Workers.Correlation.{
  SignalListener, SignalConnection, connect_client, is_signal, stop_correlation_evaluator_worker,
}

-- The fields of a candidate that the calls read.
pub record EscalationCandidate : Type 0 where
  pub id : ℕ
  pub tenant_id : String

-- The calls for one risk case.
pub data CaseCall : Type 0 where
  module_enabled : (tenant key : String) → CaseCall
  risk_case_escalate : (actor case_id : ℕ) (reason tenant : String) → CaseCall
  auto_create_from_correlation : (correlation : ℕ) (tenant : String) → CaseCall

-- `result?.candidates ?? []`, none where the result or the field is missing.
abbrev pub or_none_at_all : {A : Type 0} → Option (List A) → List A
or_none_at_all none = []
or_none_at_all (some xs) = xs

-- The calls for a candidate in order, for what its guard gives. That the escalation throws is only
-- logged.
unfoldable pub escalate_candidate : Outcome Bool → EscalationCandidate → List CaseCall
unfolding guard_passes
escalate_candidate enabled c =
    module_enabled c.tenant_id "risk_cases"
    ∷ (if guard_passes enabled
        then risk_case_escalate 0 c.id "auto-escalation: due_at exceeded" c.tenant_id ∷ []
        else [])

-- The tick over the candidates, two at a time at most, for what the check gives.
unfoldable pub run_case_escalation_tick :
    (enabled : EscalationCandidate → Outcome Bool)
    → Outcome (Option (List EscalationCandidate))
    → List (List CaseCall)
unfolding escalate_candidate
run_case_escalation_tick enabled (thrown m) = []
run_case_escalation_tick enabled (returned result) =
    map (λ c. escalate_candidate (enabled c) c) (or_none_at_all result)

-- The calls for a signal: the guard, then a call for each correlation that the query gives.
unfoldable pub process_correlations_for_signal :
    (tenant : String) → Outcome Bool → Outcome (List ℕ) → List CaseCall
unfolding guard_passes
process_correlations_for_signal tenant enabled fetched =
    module_enabled tenant "risk_cases"
    ∷ (if guard_passes enabled
        then elim fetched [
          | thrown m ↦ []
          | returned ids ↦ map (λ n. auto_create_from_correlation n tenant) ids
        ]
        else [])

module _ (R : Runtime) where
  open R use {Num}

  abbrev pub is_tenant : Option (Json Num) → Bool
  is_tenant none = false
  is_tenant (some v) = truthy R v

  -- The signal and the tenant that a notification names, for its payload; a payload that is no JSON
  -- is skipped.
  unfoldable pub notified_correlations :
      (parsed : Option (Json Num)) → Throws (Option (Option (Json Num) × Option (Json Num)))
  notified_correlations none = returns none
  notified_correlations (some payload) = member payload "signalId" >>= λ signal.
      member payload "tenantId" >>= λ tenant. member payload "inserted" >>= λ inserted. returns (
        if is_signal R signal && is_tenant tenant && is_signal R inserted
        then some (signal, tenant)
        else none)

unfoldable pub start_risk_case_auto_create_worker :
    (test_mode switched_on : Bool) → SignalConnection → SignalListener → SignalListener
start_risk_case_auto_create_worker test_mode switched_on outcome l =
    if test_mode || not switched_on || l.holds_client then l else connect_client outcome l

unfoldable pub stop_risk_case_auto_create_worker : SignalListener → SignalListener
unfolding stop_correlation_evaluator_worker
stop_risk_case_auto_create_worker l = stop_correlation_evaluator_worker l

pub record SlaCandidate : Type 0 where
  pub obligation_id : ℕ
  pub tier_day : ℕ
  pub tenant_id : String

-- A call of `fn_obligation_sla_dispatch`.
pub record SlaDispatch : Type 0 where
  pub obligation_id : ℕ
  pub tier_day : ℕ
  pub tenant_id : String

-- The call for a candidate; that it throws is only logged.
unfoldable pub dispatch_candidate : SlaCandidate → SlaDispatch
dispatch_candidate c = record {
  obligation_id = c.obligation_id;
  tier_day = c.tier_day;
  tenant_id = c.tenant_id;
}

unfoldable pub run_sla_tick : Outcome (Option (List SlaCandidate)) → List SlaDispatch
run_sla_tick (thrown m) = []
run_sla_tick (returned result) = map dispatch_candidate (or_none_at_all result)

-- The count that it returns, or what it throws, and the calls.
unfoldable pub run_obligation_sla_tick_once :
    Outcome (Option (List SlaCandidate)) → Outcome ℕ × List SlaDispatch
run_obligation_sla_tick_once (thrown m) = (thrown m, [])
run_obligation_sla_tick_once (returned result) =
    let candidates = or_none_at_all result in
    (returned (length candidates), map dispatch_candidate candidates)

-- The driver that three of the workers repeat: the expression of the task that is held. An expression
-- that is not valid gives way to the default.
abbrev pub schedule_of : (valid : String → Bool) (fallback : String) → Option String → String
schedule_of valid fallback none = fallback
schedule_of valid fallback (some expression) = if valid expression then expression else fallback

abbrev pub or_start : Option String → String → Option String
or_start none expression = some expression
or_start (some held) expression = some held

unfoldable pub start_with_default :
    (valid : String → Bool) (fallback : String) (test_mode switched_on : Bool)
    → (configured held : Option String) → Option String
start_with_default valid fallback test_mode switched_on configured held =
    if test_mode || not switched_on
    then held
    else or_start held (schedule_of valid fallback configured)

module _ (valid : String → Bool) (test_mode switched_on : Bool)
    (configured held : Option String) where
  unfoldable pub start_risk_case_escalation_worker : Option String
  unfolding start_with_default
  start_risk_case_escalation_worker =
      start_with_default valid "*/5 * * * *" test_mode switched_on configured held

  unfoldable pub start_risk_triage_auto_escalate_worker : Option String
  unfolding start_with_default
  start_risk_triage_auto_escalate_worker =
      start_with_default valid "0 6 * * *" test_mode switched_on configured held

  unfoldable pub start_obligation_sla_escalation_worker : Option String
  unfolding start_with_default
  start_obligation_sla_escalation_worker =
      start_with_default valid "0 5 * * *" test_mode switched_on configured held

-- The worker that dismisses stale cases: how many of its tasks run, and whether one is held.
pub record DismissTasks : Type 0 where
  pub running : ℕ
  pub holds_task : Bool

-- A start looks at no task that is held; `switched_off` is that the switch is `false`.
unfoldable pub start_risk_case_auto_dismiss_worker :
    (test_mode switched_off : Bool) → DismissTasks → DismissTasks
start_risk_case_auto_dismiss_worker test_mode switched_off d =
    if test_mode || switched_off then d else record { running = suc d.running; holds_task = true }

unfoldable pub stop_risk_case_auto_dismiss_worker : DismissTasks → DismissTasks
stop_risk_case_auto_dismiss_worker d =
    if d.holds_task then record { running = d.running - 1; holds_task = false } else d
