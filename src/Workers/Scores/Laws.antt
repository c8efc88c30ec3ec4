-- ===== src/Workers/Scores/Laws.antt =====
-- src/workers/score-recompute.worker.ts and src/workers/risk-case-auto-create.worker.ts: the two listeners
-- on one channel.
use musanad_contracts_backen.Base.{
  suc, ◌≡◌, refl, ap, Bool, true, false, not, ◌&&◌, Option, none, some, Bool-cases, inl, inr, arith,
  if◌then◌else◌,
}
use musanad_contracts_backen.Js.{Runtime, Json, Throws, returns, throws, ◌>>=◌, member}
use musanad_contracts_backen.Workers.Correlation.{is_signal, SignalConnection}
use musanad_contracts_backen.Workers.Cases.{is_tenant, notified_correlations}
use musanad_contracts_backen.Workers.Scores.{
  is_none_or_less, scored_signal, notified_scores, RecomputeWorker, start_recompute_worker,
  stop_recompute_worker,
}

-- A stop after two starts leaves a daily task that no later stop reaches.
pub restart_lost :
    (first second : SignalConnection) (w : RecomputeWorker)
    → let stopped =
        stop_recompute_worker
          (start_recompute_worker false true second (start_recompute_worker false true first w)) in
      (stopped.running ≡ suc w.running) × ((stop_recompute_worker stopped).running ≡ suc w.running)
unfolding start_recompute_worker stop_recompute_worker
restart_lost first second w = (omega arith, omega arith)

module _ (R : Runtime) where
  open R use {Num}

  inserted_positive :
      (inserted : Option (Json Num))
      → is_signal R inserted ≡ true
      → is_none_or_less R inserted ≡ false
  inserted_positive none h = ground (arith, h)
  inserted_positive (some v) h = elim (Bool-cases (is_none_or_less R (some v))) [
    | inr more ↦ more
    | inl less ↦ ground (arith, h, less)
  ]

  abbrev Pair : Type 0
  Pair = Option (Json Num) × Option (Json Num)

  -- The test of the worker that creates risk cases.
  abbrev case_signal : (signal tenant inserted : Option (Json Num)) → Option Pair
  case_signal signal tenant inserted =
      if is_signal R signal && is_tenant R tenant && is_signal R inserted
      then some (signal, tenant)
      else none

  test_weaker :
      (a b c d : Bool) (x p : Pair)
      → (c ≡ true → d ≡ false)
      → (if a && b && c then some x else none) ≡ some p
      → (if a && b && not d then some x else none) ≡ some p
  test_weaker true true true d x p less h = rw (less refl) h
  test_weaker true true false d x p less h = ground (arith, h)
  test_weaker true false c d x p less h = h
  test_weaker false b c d x p less h = h

  case_signal-scored_signal :
      (signal tenant inserted : Option (Json Num)) (p : Pair)
      → case_signal signal tenant inserted ≡ some p
      → scored_signal R signal tenant inserted ≡ some p
  case_signal-scored_signal signal tenant inserted p h =
      test_weaker (is_signal R signal) (is_tenant R tenant) (is_signal R inserted)
        (is_none_or_less R inserted) (signal, tenant) p (inserted_positive inserted) h

  abbrev value_of : Throws (Option Pair) → Option Pair
  value_of (returns v) = v
  value_of throws = none

  fields_scored :
      (signal tenant inserted : Throws (Option (Json Num))) (p : Pair)
      → (signal >>= λ s. tenant >>= λ t. inserted >>= λ i. returns (case_signal s t i))
        ≡ returns (some p)
      → (signal >>= λ s. tenant >>= λ t. inserted >>= λ i. returns (scored_signal R s t i))
        ≡ returns (some p)
  fields_scored throws tenant inserted p h = ground (arith, ap value_of h)
  fields_scored (returns s) throws inserted p h = ground (arith, ap value_of h)
  fields_scored (returns s) (returns t) throws p h = ground (arith, ap value_of h)
  fields_scored (returns s) (returns t) (returns i) p h =
      ap (λ v. returns v) (case_signal-scored_signal s t i p (ap value_of h))

  -- A notification for which risk cases are created has the scores of the same signal and tenant
  -- computed again.
  pub notified_correlations-notified_scores :
      (parsed : Option (Json Num)) (p : Pair)
      → notified_correlations R parsed ≡ returns (some p)
      → notified_scores R parsed ≡ returns (some p)
  unfolding notified_correlations notified_scores
  notified_correlations-notified_scores none p h = h
  notified_correlations-notified_scores (some payload) p h =
      fields_scored (member payload "signalId") (member payload "tenantId")
        (member payload "inserted") p h
