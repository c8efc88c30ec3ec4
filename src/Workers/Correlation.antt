-- ===== src/Workers/Correlation.antt =====
-- src/workers/correlation-evaluator.worker.ts: the evaluation of one signal against the cached rules,
-- and the listener that hears of new signals.
pub mod Laws
use musanad_contracts_backen.Base.{
  ℕ, zero, suc, ◌+◌, ◌*◌, String, Bool, true, false, not, ◌&&◌, ◌||◌, Option, none, some, List, [],
  ◌∷◌, take, ◌==◌, if◌then◌else◌,
}
use musanad_contracts_backen.Calls.{Units, Outcome, returned, thrown, guard_passes}
use musanad_contracts_backen.Js.{
  Runtime, Json, null, num, Throws, returns, throws, ◌>>=◌, member, truthy, option_number,
}

-- The fields of a cached rule that are read.
pub record EvaluatedRule : Type 0 where
  pub rule_id : ℕ
  pub evaluation_timeout_seconds_override : Option ℕ

abbrev pub rule_timeout_ms : EvaluatedRule → ℕ
rule_timeout_ms rule = elim rule.evaluation_timeout_seconds_override [
  | none ↦ 5000
  | some s ↦ s * 1000
]

-- The calls for one signal.
pub data EvaluationCall : Type 0 where
  rule_evaluate : (signal rule timeout_ms : ℕ) → EvaluationCall
  eval_error_record : (signal rule : ℕ) → Units → EvaluationCall

-- What the race of the evaluation and its timeout gives: null, or a result with `errorWritten`.
pub record Evaluation : Type 0 where
  pub error_written : Bool

pub record Evaluated : Type 0 where
  pub evaluated_count : ℕ
  pub error_count : ℕ
  pub calls : List EvaluationCall  -- newest first

-- `race` sees the calls so far, of which the newest is its own. The message of an exception that is
-- no error is not cut.
module _ (race : List EvaluationCall → Outcome (Option Evaluation)) (signal : ℕ) where
  abbrev pub after_race : EvaluatedRule → Outcome (Option Evaluation) → Evaluated → Evaluated
  after_race rule (returned none) st = st
  after_race rule (returned (some r)) st = record st {
    evaluated_count = st.evaluated_count + 1;
    error_count = if r.error_written then st.error_count + 1 else st.error_count;
  }
  after_race rule (thrown message) st = record st {
    error_count = st.error_count + 1;
    calls = eval_error_record signal rule.rule_id (take 500 message) ∷ st.calls;
  }

  -- The loop of `processSignal`; the exception of an error record's own call is only logged.
  unfoldable pub evaluate_rules : List EvaluatedRule → Evaluated → Evaluated
  evaluate_rules [] st = st
  evaluate_rules (rule ∷ rules) st =
      let calls = rule_evaluate signal rule.rule_id (rule_timeout_ms rule) ∷ st.calls in
      evaluate_rules rules (after_race rule (race calls) (record st { calls = calls }))

  abbrev pub nothing_evaluated : Evaluated
  nothing_evaluated = record { evaluated_count = 0; error_count = 0; calls = [] }

  -- `processSignal`, for what the guard gives and the rules that `getCachedRules` gives.
  unfoldable pub process_signal : Outcome Bool → List EvaluatedRule → Evaluated
  unfolding guard_passes evaluate_rules
  process_signal enabled rules =
      if guard_passes enabled then evaluate_rules rules nothing_evaluated else nothing_evaluated

module _ (R : Runtime) where
  open R use {Num, at_most, of_ℕ}

  -- `a ?? b`
  abbrev pub or_next : Option (Json Num) → Throws (Option (Json Num)) → Throws (Option (Json Num))
  or_next none b = b
  or_next (some null) b = b
  or_next (some v) b = returns (some v)

  abbrev pub signal_id : Json Num → Throws (Option (Json Num))
  signal_id payload = member payload "signal_id" >>= λ a.
      or_next a (member payload "id" >>= λ b. or_next b (returns (some (num (of_ℕ 0)))))

  abbrev pub is_signal : Option (Json Num) → Bool
  is_signal none = false
  is_signal (some v) = truthy R v && not (at_most (option_number R (some v)) (of_ℕ 0))

  abbrev pub if_signal : Throws (Option (Json Num)) → Option (Json Num)
  if_signal throws = none
  if_signal (returns v) = if is_signal v then v else none

  -- The signal that a notification names, for its payload; `none`: nothing is processed.
  unfoldable pub notified_signal : (parsed : Option (Json Num)) → Option (Json Num)
  notified_signal none = none
  notified_signal (some payload) = if_signal (signal_id payload)

-- The worker's client: whether one is held, and whether its LISTEN went through.
pub record SignalListener : Type 0 where
  pub holds_client : Bool
  pub hears_signals : Bool

-- What `connect` and LISTEN do.
pub data SignalConnection : Type 0 where
  connect_fails listen_fails connected : SignalConnection

abbrev pub connect_client : SignalConnection → SignalListener → SignalListener
connect_client connect_fails l = l
connect_client listen_fails l = record { holds_client = true; hears_signals = false }
connect_client connected l = record { holds_client = true; hears_signals = true }

unfoldable pub start_correlation_evaluator_worker :
    (test_mode switched_on : Bool) → SignalConnection → SignalListener → SignalListener
start_correlation_evaluator_worker test_mode switched_on outcome l =
    if test_mode || not switched_on || l.holds_client then l else connect_client outcome l

-- An error of the connection drops the client.
abbrev pub listener_error : SignalListener → SignalListener
listener_error l = record { holds_client = false; hears_signals = false }

-- Once UNLISTEN is answered, or has failed.
unfoldable pub stop_correlation_evaluator_worker : SignalListener → SignalListener
stop_correlation_evaluator_worker l =
    if l.holds_client then record { holds_client = false; hears_signals = false } else l
