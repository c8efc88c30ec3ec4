-- ===== src/Workers/Cases/Tests.antt =====
-- The workers on risk cases and obligations: runs on concrete values.
use musanad_contracts_backen.Base.{
  ◌≡◌, refl, String, Bool, true, false, none, some, [], length, ◌=s◌,
}
use musanad_contracts_backen.Calls.{returned, thrown, guard_passes}
use musanad_contracts_backen.Workers.Cases.{
  EscalationCandidate, run_case_escalation_tick, start_with_default, escalate_candidate,
}

abbrev case_7 : EscalationCandidate
case_7 = record { id = 7; tenant_id = "t" }

abbrev is_daily : String → Bool
is_daily s = s =s "0 6 * * *"

case_tests :
    (run_case_escalation_tick (λ c. thrown []) (thrown []) ≡ [])
    × (length (escalate_candidate (returned false) case_7) ≡ 1)
    × (length (escalate_candidate (thrown []) case_7) ≡ 2)
    × (start_with_default is_daily "0 6 * * *" false true (some "never") none ≡ some "0 6 * * *")
unfolding run_case_escalation_tick escalate_candidate start_with_default guard_passes
case_tests = (refl, refl, refl, refl)
