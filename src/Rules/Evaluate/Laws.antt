-- ===== src/Rules/Evaluate/Laws.antt =====
-- src/services/rule-evaluator.service.ts: what the connectives of a block mean.
use native.Mathlib.Nat.{le_refl}
use musanad_contracts_backen.Base.{
  ◌≡◌, refl, sym, ap, ◌∙◌, ◌⊎◌, inl, inr, ◌≢◌, String, true, false, not, Option, none, some, List,
  [], ◌∷◌, ◌++◌, arith, ◌↔◌,
}
use musanad_contracts_backen.Js.{
  Runtime, Json, Items, Fields, arr, obj, nil, cons, elems, find_field, returns,
}
use musanad_contracts_backen.Js.Laws.{All}
use musanad_contracts_backen.Rules.Context.{EvaluationContext}
use musanad_contracts_backen.Rules.Predicates.Signal.{signal_checks}
use musanad_contracts_backen.Rules.Predicates.Contract.{contract_checks}
use musanad_contracts_backen.Rules.Predicates.Join.{join_checks}
use musanad_contracts_backen.Rules.Evaluate.{
  Verdict, done, threw, starved, negate, ◌also◌, of_throws, choose, some_of, wrap, with_value,
  run_block, run_signal, run_contract, caught, evaluate_match_block,
}
use musanad_contracts_backen.Rules.Evaluate.Fuel.{run_equations, eval_block-ends}

Verdict-cases : (v : Verdict) → (v ≡ done true) ⊎ (v ≡ done false) ⊎ (v ≡ threw) ⊎ (v ≡ starved)
Verdict-cases (done true) = inl refl
Verdict-cases (done false) = inr (inl refl)
Verdict-cases threw = inr (inr (inl refl))
Verdict-cases starved = inr (inr (inr refl))

-- `blocks.map((s) => ({ [key]: s }))`
abbrev pub wrap_all : {N : Type 0} → String → Items N → Items N
wrap_all key nil = nil
wrap_all key (cons b bs) = cons (wrap key b) (wrap_all key bs)

module _ (R : Runtime) where
  open R use {Num}

  caught-true : (ctx : EvaluationContext Num) (v : Verdict) → caught R ctx v ≡ true → v ≡ done true
  caught-true ctx (done b) h = ap done h
  caught-true ctx threw h = cc
  caught-true ctx starved h = cc

  module _ (ctx : EvaluationContext Num) where
    abbrev run : Json Num → Verdict
    run = run_block R ctx

    run-not : (b : Json Num) → run (wrap "not" b) ≡ negate (run b)
    run-not b = (run_equations R ctx).0 (wrap "not" b)

    run-any_of : (bs : Items Num) → run (wrap "anyOf" (arr bs)) ≡ some_of run (elems bs)
    run-any_of bs = (run_equations R ctx).0 (wrap "anyOf" (arr bs))

    caught-negate :
        (v : Verdict)
        → v ≢ starved
        → ((v ≡ threw) × (caught R ctx v ≡ false) × (caught R ctx (negate v) ≡ false))
          ⊎ ((v ≢ threw) × (caught R ctx (negate v) ≡ not (caught R ctx v)))
    caught-negate (done b) h = inr (cc, refl)
    caught-negate threw h = inl (refl, refl, refl)
    caught-negate starved h = absurd (h refl)

    -- A block and its negation: either the block throws, and neither matches, or it does not, and
    -- exactly one of the two matches.
    pub match-not :
        (b : Json Num)
        → ((run_block R ctx b ≡ threw)
            × (evaluate_match_block R ctx b ≡ false)
            × (evaluate_match_block R ctx (wrap "not" b) ≡ false))
          ⊎ ((run_block R ctx b ≢ threw)
              × (evaluate_match_block R ctx (wrap "not" b) ≡ not (evaluate_match_block R ctx b)))
    unfolding evaluate_match_block
    match-not b = rw (run-not b) (caught-negate (run b) (eval_block-ends R ctx _ b (le_refl _)).1)

    -- The first block that is not false is true.
    abbrev pub FirstTrue : List (Json Num) → Type 0
    FirstTrue bs =
        (before : List (Json Num)) × (b : Json Num) × (after : List (Json Num)) × (bs
          ≡ before ++ b ∷ after)
        × All (λ x. run_block R ctx x ≡ done false) before
        × (run_block R ctx b ≡ done true)

    some_of-FirstTrue : (bs : List (Json Num)) → some_of run bs ≡ done true → FirstTrue bs
    some_of-FirstTrue [] h = cc
    some_of-FirstTrue (b ∷ bs) h = elim (Verdict-cases (run b)) [
      | inl yes' ↦ ([], b, bs, refl, tt, yes')
      | inr (inl no') ↦
          let (before, x, after, e, k, t) = some_of-FirstTrue bs (rw no' at h) in
          (b ∷ before, x, after, ap (λ l. b ∷ l) e, (no', k), t)
      | inr (inr (inl e)) ↦ cc (rw e at h)
      | inr (inr (inr e)) ↦ cc (rw e at h)
    ]

    FirstTrue-some_of :
        (before : List (Json Num)) (b : Json Num) (after : List (Json Num))
        → All (λ x. run_block R ctx x ≡ done false) before
        → run_block R ctx b ≡ done true
        → some_of run (before ++ b ∷ after) ≡ done true
    FirstTrue-some_of [] b after h t = rw t
    FirstTrue-some_of (x ∷ before) b after h t = rw h.0 (FirstTrue-some_of before b after h.1 t)

    -- A disjunction matches exactly when one of its blocks is true and all before it are false: an
    -- exception in an earlier block hides a later match, one in a later block does no harm.
    pub match-any_of :
        (bs : Items Num)
        → (evaluate_match_block R ctx (wrap "anyOf" (arr bs)) ≡ true) ↔ FirstTrue (elems bs)
    unfolding evaluate_match_block
    match-any_of bs = (
      λ h. some_of-FirstTrue (elems bs) (caught-true ctx _ (rw (run-any_of bs) at h)),
      λ (before, b, after, e, k, t).
          rw (run-any_of bs) (rw e (ap (caught R ctx) (FirstTrue-some_of before b after k t))),
    )

    -- A block with `anyOf` is that disjunction alone, and one with `not` and no `anyOf` that negation
    -- alone: what else stands in the block is not read.
    pub match_shadowed :
        (fs : Fields Num) (v : Json Num)
        → (find_field "anyOf" fs ≡ some v
            → evaluate_match_block R ctx (obj fs) ≡ evaluate_match_block R ctx (wrap "anyOf" v))
          × (find_field "anyOf" fs ≡ none
              → find_field "not" fs ≡ some v
              → evaluate_match_block R ctx (obj fs) ≡ evaluate_match_block R ctx (wrap "not" v))
    unfolding evaluate_match_block
    match_shadowed fs v = (
      λ e. rw ((run_equations R ctx).0 (obj fs), (run_equations R ctx).0 (wrap "anyOf" v)) (rw e),
      λ e k.
          rw ((run_equations R ctx).0 (obj fs), (run_equations R ctx).0 (wrap "not" v)) (rw (e, k)),
    )

    -- What a section that is present evaluates to.
    abbrev pub SectionHolds : Option (Json Num) → (Json Num → Verdict) → Type 0
    SectionHolds none f = Unit {0}
    SectionHolds (some v) f = f v ≡ done true

    section_true :
        (s : Option (Json Num)) (f : Json Num → Verdict)
        → (with_value (returns s) (done true) f ≡ done true) ↔ SectionHolds s f
    section_true none f = (λ e. tt, λ e. refl)
    section_true (some v) f = (λ e. e, λ e. e)

    also_true :
        (x y z : Verdict)
        → (caught R ctx (x also y also z) ≡ true)
          ↔ ((x ≡ done true) × (y ≡ done true) × (z ≡ done true))
    also_true x y z = (λ e. ground (arith, caught-true ctx (x also y also z)), λ e. ground arith)

    sections_hold :
        (s c j : Option (Json Num)) (f g h : Json Num → Verdict)
        → (caught R ctx (
              with_value (returns s) (done true) f
              also with_value (returns c) (done true) g
              also with_value (returns j) (done true) h)
            ≡ true)
          ↔ (SectionHolds s f × SectionHolds c g × SectionHolds j h)
    sections_hold s c j f g h =
        let (there, back) = also_true _ _ _ in
        (
          λ e.
              let (x, y, z) = there e in
              ((section_true s f).0 x, (section_true c g).0 y, (section_true j h).0 z),
          λ (x, y, z).
              back ((section_true s f).1 x, (section_true c g).1 y, (section_true j h).1 z),
        )

    -- Without `anyOf` and `not` a block matches exactly when each of its sections `signal`,
    -- `contract` and `joins` that is present is true; a block with none of the five keys matches
    -- everything.
    pub match-sections :
        (fs : Fields Num)
        → find_field "anyOf" fs ≡ none
        → find_field "not" fs ≡ none
        → (evaluate_match_block R ctx (obj fs) ≡ true) ↔ (
            SectionHolds (find_field "signal" fs) (run_signal R ctx)
            × SectionHolds (find_field "contract" fs) (run_contract R ctx)
            × SectionHolds (find_field "joins" fs) (λ p. of_throws (join_checks R ctx p)))
    unfolding evaluate_match_block
    match-sections fs a n =
        rw ((run_equations R ctx).0 (obj fs)) (rw (a, n) (sections_hold _ _ _ _ _ _))

    some_of_wrapped :
        (key : String) (bs : Items Num)
        → some_of (λ s. run (wrap key s)) (elems bs) ≡ some_of run (elems (wrap_all key bs))
    some_of_wrapped key nil = refl
    some_of_wrapped key (cons b bs) = ap (choose (run (wrap key b))) (some_of_wrapped key bs)

    also-true : (x : Verdict) → (x also done true) ≡ x
    also-true (done true) = refl
    also-true (done false) = refl
    also-true threw = refl
    also-true starved = refl

    run_signal-any_of :
        (bs : Items Num)
        → run_signal R ctx (wrap "anyOf" (arr bs)) ≡ some_of run (elems (wrap_all "signal" bs))
    unfolding signal_checks
    run_signal-any_of bs =
        (run_equations R ctx).1 (wrap "anyOf" (arr bs)) ∙ also-true _ ∙ some_of_wrapped "signal" bs

    run_contract-any_of :
        (bs : Items Num)
        → run_contract R ctx (wrap "anyOf" (arr bs)) ≡ some_of run (elems (wrap_all "contract" bs))
    unfolding contract_checks
    run_contract-any_of bs =
        (run_equations R ctx).2 (wrap "anyOf" (arr bs))
        ∙ also-true _
        ∙ some_of_wrapped "contract" bs

    -- A disjunction inside a signal block, or inside a contract block, matches exactly when the
    -- disjunction of blocks that hold one signal, or contract, block each does.
    pub match-nested_any_of :
        (bs : Items Num)
        → (evaluate_match_block R ctx (wrap "signal" (wrap "anyOf" (arr bs)))
            ≡ evaluate_match_block R ctx (wrap "anyOf" (arr (wrap_all "signal" bs))))
          × (evaluate_match_block R ctx (wrap "contract" (wrap "anyOf" (arr bs)))
              ≡ evaluate_match_block R ctx (wrap "anyOf" (arr (wrap_all "contract" bs))))
    unfolding evaluate_match_block
    match-nested_any_of bs = (
      ap (caught R ctx) (
          (run_equations R ctx).0 (wrap "signal" (wrap "anyOf" (arr bs)))
          ∙ also-true _
          ∙ run_signal-any_of bs
          ∙ sym (run-any_of (wrap_all "signal" bs))),
      ap (caught R ctx) (
          (run_equations R ctx).0 (wrap "contract" (wrap "anyOf" (arr bs)))
          ∙ also-true _
          ∙ run_contract-any_of bs
          ∙ sym (run-any_of (wrap_all "contract" bs))),
    )
