-- ===== src/Workers/Correlation/Laws.antt =====
-- src/workers/correlation-evaluator.worker.ts: what the evaluation of a signal calls and counts.
use mathlib.Core.List.{append_assoc, append-nil}
use musanad_contracts_backen.Base.{
  ℕ, ◌+◌, ◌≡◌, refl, sym, ap, ◌∙◌, Bool, true, Option, none, some, List, [], ◌∷◌, ◌++◌, map, arith,
  if◌then◌else◌,
}
use musanad_contracts_backen.Calls.{Outcome, returned, thrown, guard_passes}
use musanad_contracts_backen.Workers.Correlation.{
  EvaluatedRule, rule_timeout_ms, EvaluationCall, rule_evaluate, eval_error_record, Evaluation,
  Evaluated, after_race, evaluate_rules, nothing_evaluated, process_signal,
}

-- The rules that were evaluated, with their timeouts, oldest first.
unfoldable pub evaluations : List EvaluationCall → List (ℕ × ℕ)
evaluations [] = []
evaluations (rule_evaluate s r t ∷ calls) = evaluations calls ++ ((r, t) ∷ [])
evaluations (eval_error_record s r m ∷ calls) = evaluations calls

-- The rules for which an error was recorded, oldest first.
unfoldable pub error_records : List EvaluationCall → List ℕ
error_records [] = []
error_records (rule_evaluate s r t ∷ calls) = error_records calls
error_records (eval_error_record s r m ∷ calls) = error_records calls ++ (r ∷ [])

abbrev pub if_rejected : Outcome (Option Evaluation) → ℕ → List ℕ
if_rejected (returned o) r = []
if_rejected (thrown m) r = r ∷ []

abbrev pub successes : Outcome (Option Evaluation) → ℕ
successes (returned none) = 0
successes (returned (some e)) = 1
successes (thrown m) = 0

abbrev pub failures : Outcome (Option Evaluation) → ℕ
failures (returned none) = 0
failures (returned (some e)) = if e.error_written then 1 else 0
failures (thrown m) = 1

module _ (race : List EvaluationCall → Outcome (Option Evaluation)) (signal : ℕ) where
  -- The rules whose race was rejected, oldest first.
  unfoldable pub rejected : List EvaluationCall → List ℕ
  rejected [] = []
  rejected (rule_evaluate s r t ∷ calls) =
      rejected calls ++ if_rejected (race (rule_evaluate s r t ∷ calls)) r
  rejected (eval_error_record s r m ∷ calls) = rejected calls

  unfoldable pub succeeded : List EvaluationCall → ℕ
  succeeded [] = 0
  succeeded (rule_evaluate s r t ∷ calls) =
      succeeded calls + successes (race (rule_evaluate s r t ∷ calls))
  succeeded (eval_error_record s r m ∷ calls) = succeeded calls

  unfoldable pub failed : List EvaluationCall → ℕ
  failed [] = 0
  failed (rule_evaluate s r t ∷ calls) =
      failed calls + failures (race (rule_evaluate s r t ∷ calls))
  failed (eval_error_record s r m ∷ calls) = failed calls

  -- The counters and the error records agree with what the races gave.
  abbrev pub IsAccounted : Evaluated → Type 0
  IsAccounted st =
      (error_records st.calls ≡ rejected st.calls)
      × (st.evaluated_count ≡ succeeded st.calls)
      × (st.error_count ≡ failed st.calls)

  abbrev entry : EvaluatedRule → ℕ × ℕ
  entry rule = (rule.rule_id, rule_timeout_ms rule)

  abbrev asked : EvaluatedRule → Evaluated → Evaluated
  asked rule st = record st {
    calls = rule_evaluate signal rule.rule_id (rule_timeout_ms rule) ∷ st.calls;
  }

  abbrev next : EvaluatedRule → Evaluated → Evaluated
  next rule st = after_race race signal rule (race (asked rule st).calls) (asked rule st)

  after_race-IsAccounted :
      (rule : EvaluatedRule) (o : Outcome (Option Evaluation)) (st : Evaluated)
      → race (asked rule st).calls ≡ o
      → IsAccounted st
      → IsAccounted (after_race race signal rule o (asked rule st))
        × (evaluations (after_race race signal rule o (asked rule st)).calls
            ≡ evaluations st.calls ++ (entry rule ∷ []))
  unfolding evaluations error_records rejected succeeded failed
  after_race-IsAccounted rule (returned none) st q (e, c, f) = (
    (
      rw q (e ∙ sym (append-nil (rejected st.calls))),
      rw q (omega (arith, c)),
      rw q (omega (arith, f)),
    ),
    refl,
  )
  after_race-IsAccounted rule (returned (some r)) st q (e, c, f) = (
    (
      rw q (e ∙ sym (append-nil (rejected st.calls))),
      rw q (omega (arith, c)),
      rw q (ground (arith, f)),
    ),
    refl,
  )
  after_race-IsAccounted rule (thrown m) st q (e, c, f) = (
    (
      rw q (ap (λ rs. rs ++ (rule.rule_id ∷ [])) e),
      rw q (omega (arith, c)),
      rw q (omega (arith, f)),
    ),
    refl,
  )

  evaluate_rules-IsAccounted :
      (rules : List EvaluatedRule) (st : Evaluated)
      → IsAccounted st
      → IsAccounted (evaluate_rules race signal rules st)
        × (evaluations (evaluate_rules race signal rules st).calls
            ≡ evaluations st.calls ++ map entry rules)
  unfolding evaluate_rules
  evaluate_rules-IsAccounted [] st h = (h, sym (append-nil (evaluations st.calls)))
  evaluate_rules-IsAccounted (rule ∷ rules) st h =
      let (a, b) = after_race-IsAccounted rule (race (asked rule st).calls) st refl h in
      let (a', b') = evaluate_rules-IsAccounted rules (next rule st) a in
      (
        a',
        b'
            ∙ ap (λ es. es ++ map entry rules) b
            ∙ append_assoc (evaluations st.calls) (entry rule ∷ []) (map entry rules),
      )

  -- Where the module is not switched off, also where that cannot be read, a signal is evaluated once
  -- against every cached rule, in their order and with the rule's timeout; an error is recorded for
  -- exactly the rules whose evaluation was rejected or ran out of time; and the two counters are those
  -- of the results and of the failures, written ones included.
  pub process_signal-IsAccounted :
      (enabled : Outcome Bool) (rules : List EvaluatedRule)
      → guard_passes enabled ≡ true
      → let st = process_signal race signal enabled rules in
        IsAccounted st
        × (evaluations st.calls ≡ map (λ rule. (rule.rule_id, rule_timeout_ms rule)) rules)
  unfolding process_signal evaluations error_records rejected succeeded failed
  process_signal-IsAccounted enabled rules on =
      rw on (evaluate_rules-IsAccounted rules (nothing_evaluated race signal) (refl, refl, refl))
