-- ===== src/Workers/Cases/Laws.antt =====
-- The workers on risk cases and obligations: what a tick reaches, and what the drivers hold.
use musanad_contracts_backen.Base.{
  ℕ, zero, suc, ◌-◌, ◌≡◌, refl, sym, ap, ◌∙◌, String, Bool, true, false, not, ◌||◌, Option, none,
  some, List, [], ◌∷◌, map, length, Bool-cases, inl, inr, if◌then◌else◌, arith,
}
use musanad_contracts_backen.Calls.{Outcome, returned, guard_passes}
use musanad_contracts_backen.Workers.Cases.{
  EscalationCandidate, CaseCall, module_enabled, risk_case_escalate, auto_create_from_correlation,
  or_none_at_all, escalate_candidate, run_case_escalation_tick, SlaCandidate, run_sla_tick,
  run_obligation_sla_tick_once, dispatch_candidate, schedule_of, or_start, start_with_default,
  DismissTasks, start_risk_case_auto_dismiss_worker, stop_risk_case_auto_dismiss_worker,
}

-- The cases that the calls escalate.
unfoldable pub escalated_by : List CaseCall → List ℕ → List ℕ
escalated_by [] rest = rest
escalated_by (module_enabled t k ∷ calls) rest = escalated_by calls rest
escalated_by (risk_case_escalate a n r t ∷ calls) rest = n ∷ escalated_by calls rest
escalated_by (auto_create_from_correlation n t ∷ calls) rest = escalated_by calls rest

unfoldable pub escalated : List (List CaseCall) → List ℕ
escalated [] = []
escalated (calls ∷ rest) = escalated_by calls (escalated rest)

-- The cases of the candidates whose module is not switched off, also where that cannot be read.
unfoldable pub to_escalate :
    (EscalationCandidate → Outcome Bool) → List EscalationCandidate → List ℕ
unfolding guard_passes
to_escalate enabled [] = []
to_escalate enabled (c ∷ cs) =
    let rest = to_escalate enabled cs in if guard_passes (enabled c) then c.id ∷ rest else rest

all_escalated :
    (enabled : EscalationCandidate → Outcome Bool) (cs : List EscalationCandidate)
    → escalated (map (λ c. escalate_candidate (enabled c) c) cs) ≡ to_escalate enabled cs
unfolding escalate_candidate escalated escalated_by to_escalate
all_escalated enabled [] = refl
all_escalated enabled (c ∷ cs) = elim (Bool-cases (guard_passes (enabled c))) [
  | inl on ↦ rw on (ap (λ rest. c.id ∷ rest) (all_escalated enabled cs))
  | inr off ↦ rw off (all_escalated enabled cs)
]

-- A tick escalates, in their order, the cases of exactly those candidates whose module is not switched
-- off.
pub run_case_escalation_tick-cases :
    (enabled : EscalationCandidate → Outcome Bool) (result : Option (List EscalationCandidate))
    → escalated (run_case_escalation_tick enabled (returned result))
      ≡ to_escalate enabled (or_none_at_all result)
unfolding run_case_escalation_tick
run_case_escalation_tick-cases enabled result = all_escalated enabled (or_none_at_all result)

length-map : {A B : Type 0} (f : A → B) (xs : List A) → length (map f xs) ≡ length xs
length-map f [] = refl
length-map f (x ∷ xs) = ap suc (length-map f xs)

-- The manual tick makes the calls of the worker's tick, and counts them where it returns.
pub run_obligation_sla_tick_once-run_sla_tick :
    (result : Option (List SlaCandidate))
    → let (count, calls) = run_obligation_sla_tick_once (returned result) in
      (calls ≡ run_sla_tick (returned result)) × (count ≡ returned (length calls))
unfolding run_obligation_sla_tick_once run_sla_tick
run_obligation_sla_tick_once-run_sla_tick result =
    (refl, ap (λ n. returned n) (sym (length-map dispatch_candidate (or_none_at_all result))))

-- Every task that is held has a valid expression.
abbrev pub HoldsValid : (String → Bool) → Option String → Type 0
HoldsValid valid none = true ≡ true
HoldsValid valid (some expression) = valid expression ≡ true

schedule_of-valid :
    (valid : String → Bool) (fallback : String) (configured : Option String)
    → valid fallback ≡ true
    → valid (schedule_of valid fallback configured) ≡ true
schedule_of-valid valid fallback none h = h
schedule_of-valid valid fallback (some expression) h = elim (Bool-cases (valid expression)) [
  | inl good ↦ rw (good, good) refl
  | inr bad ↦ rw bad h
]

or_start-HoldsValid :
    (valid : String → Bool) (held : Option String) (expression : String)
    → valid expression ≡ true
    → HoldsValid valid held
    → HoldsValid valid (or_start held expression)
or_start-HoldsValid valid none expression good h = good
or_start-HoldsValid valid (some e) expression good h = h

-- Where the default is valid, the task that a start leaves has a valid expression if the one before it
-- has, whatever expression is configured.
pub start_with_default-HoldsValid :
    (valid : String → Bool) (fallback : String) (test_mode switched_on : Bool)
    → (configured held : Option String) → valid fallback ≡ true
    → HoldsValid valid held
    → HoldsValid valid (start_with_default valid fallback test_mode switched_on configured held)
unfolding start_with_default
start_with_default-HoldsValid valid fallback test_mode switched_on configured held good h =
    elim (Bool-cases (test_mode || not switched_on)) [
      | inl off ↦ rw off h
      | inr on ↦ rw on (
          or_start-HoldsValid valid held (schedule_of valid fallback configured)
            (schedule_of-valid valid fallback configured good) h)
    ]

abbrev pub stop_many : ℕ → DismissTasks → DismissTasks
stop_many zero d = d
stop_many (suc n) d = stop_many n (stop_risk_case_auto_dismiss_worker d)

-- Without a task that is held, a stop changes nothing.
stop_many-idle :
    (n running : ℕ)
    → (stop_many n (record { running = running; holds_task = false })).running ≡ running
unfolding stop_risk_case_auto_dismiss_worker
stop_many-idle zero running = refl
stop_many-idle (suc n) running = stop_many-idle n running

-- A second start of the worker that dismisses cases leaves a task that no stop reaches: after two starts
-- and then stops, however many but one at least, one task more runs than before.
pub start_twice_lost :
    (d : DismissTasks) (n : ℕ)
    → (stop_many (suc n) (
        start_risk_case_auto_dismiss_worker false false
          (start_risk_case_auto_dismiss_worker false false d))).running
      ≡ suc d.running
unfolding start_risk_case_auto_dismiss_worker stop_risk_case_auto_dismiss_worker
start_twice_lost d n = stop_many-idle n (suc (suc d.running) - 1) ∙ omega arith
