-- ===== src/Workers/Scores.antt =====
-- src/workers/score-recompute.worker.ts and src/workers/margin-recompute.worker.ts: the listeners that
-- hear of correlations and of prices, and their daily tasks.
pub mod Laws
use musanad_contracts_backen.Base.{
  ℕ, suc, ◌-◌, String, Bool, true, false, not, ◌&&◌, ◌||◌, Option, none, some, List, [], ◌∷◌,
  if◌then◌else◌,
}
use musanad_contracts_backen.Calls.{Outcome, guard_passes}
use musanad_contracts_backen.Js.{Runtime, Json, Throws, returns, ◌>>=◌, member, option_number}
use musanad_contracts_backen.Workers.Cases.{is_tenant}
use musanad_contracts_backen.Workers.Correlation.{
  SignalListener, SignalConnection, connect_client, is_signal, stop_correlation_evaluator_worker,
}

module _ (R : Runtime) where
  open R use {Num, at_most, of_ℕ}

  -- `n <= 0`, which does not hold of a missing number.
  abbrev pub is_none_or_less : Option (Json Num) → Bool
  is_none_or_less n = at_most (option_number R n) (of_ℕ 0)

  abbrev pub scored_signal :
      (signal tenant inserted : Option (Json Num)) → Option (Option (Json Num) × Option (Json Num))
  scored_signal signal tenant inserted =
      if is_signal R signal && is_tenant R tenant && not (is_none_or_less inserted)
      then some (signal, tenant)
      else none

  -- The signal and the tenant whose scores are computed again, for the payload of a notification; a
  -- payload that is no JSON is skipped.
  unfoldable pub notified_scores :
      (parsed : Option (Json Num)) → Throws (Option (Option (Json Num) × Option (Json Num)))
  notified_scores none = returns none
  notified_scores (some payload) = member payload "signalId" >>= λ signal.
      member payload "tenantId" >>= λ tenant.
      member payload "inserted" >>= λ inserted. returns (scored_signal signal tenant inserted)

  -- Whether a notification of a price is handled.
  unfoldable pub notified_margins : (parsed : Option (Json Num)) → Throws Bool
  notified_margins none = returns false
  notified_margins (some payload) =
      member payload "tenantId" >>= λ tenant. returns (is_tenant R tenant)

  -- Whether handling it calls `fn_margin_aggregate`, for what the guard gives and the payload's
  -- `affected`; an exception of that call is only logged.
  unfoldable pub verifies_margin : Outcome Bool → (affected : Option (Json Num)) → Bool
  unfolding guard_passes
  verifies_margin enabled affected = guard_passes enabled && not (is_none_or_less affected)

-- The state of either worker: its listener, how many of its daily tasks run, and whether one is held.
pub record RecomputeWorker : Type 0 where
  pub listener : SignalListener
  pub running : ℕ
  pub holds_task : Bool

abbrev pub start_notify_listener : SignalConnection → SignalListener → SignalListener
start_notify_listener outcome l = if l.holds_client then l else connect_client outcome l

-- The start of either worker, which looks at no task that is held.
unfoldable pub start_recompute_worker :
    (test_mode switched_on : Bool) → SignalConnection → RecomputeWorker → RecomputeWorker
start_recompute_worker test_mode switched_on outcome w =
    if test_mode || not switched_on then w else record {
      listener = start_notify_listener outcome w.listener;
      running = suc w.running;
      holds_task = true;
    }

-- The stop of either worker, once UNLISTEN is answered or has failed.
unfoldable pub stop_recompute_worker : RecomputeWorker → RecomputeWorker
unfolding stop_correlation_evaluator_worker
stop_recompute_worker w = record {
  listener = stop_correlation_evaluator_worker w.listener;
  running = if w.holds_task then w.running - 1 else w.running;
  holds_task = false;
}
