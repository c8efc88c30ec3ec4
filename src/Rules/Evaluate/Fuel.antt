-- ===== src/Rules/Evaluate/Fuel.antt =====
-- src/services/rule-evaluator.service.ts: with one unit of fuel more than its depth, the evaluation
-- of a block ends, and with any more it ends the same.
use musanad_contracts_backen.Base.{
  ℕ, zero, suc, ◌<◌, ◌≡◌, refl, ap, ◌≢◌, String, Bool, true, false, Option, none, some, List, [],
  ◌∷◌, arith,
}
use musanad_contracts_backen.Js.{Runtime, Json, arr, depth, elems, member, Throws, returns, throws}
use musanad_contracts_backen.Js.Laws.{All, All-weaken, depth-member, depth-elems}
use musanad_contracts_backen.Rules.Context.{EvaluationContext}
use musanad_contracts_backen.Rules.Predicates.Signal.{signal_checks}
use musanad_contracts_backen.Rules.Predicates.Contract.{contract_checks}
use musanad_contracts_backen.Rules.Predicates.Join.{join_checks}
use musanad_contracts_backen.Rules.Evaluate.{
  Verdict, done, threw, starved, negate, ◌also◌, of_throws, choose, some_of, any_of, wrap,
  with_value, with_member, block_body, nested_body, eval_block, eval_signal_predicates,
  eval_contract_predicates, run_block, run_signal, run_contract,
}

-- Two evaluations that end, and end the same.
abbrev pub Agree : Verdict → Verdict → Type 0
Agree x y = (x ≡ y) × (x ≢ starved)

Agree-done : (b : Bool) → Agree (done b) (done b)
Agree-done b = (refl, cc)

of_throws-Agree : (t : Throws Bool) → Agree (of_throws t) (of_throws t)
of_throws-Agree (returns b) = (refl, cc)
of_throws-Agree throws = (refl, cc)

negate-Agree : (x y : Verdict) → Agree x y → Agree (negate x) (negate y)
negate-Agree (done b) y h = (ap negate h.0, cc)
negate-Agree threw y h = (ap negate h.0, cc)
negate-Agree starved y h = absurd (h.1 refl)

also-Agree : (x y p q : Verdict) → Agree x y → Agree p q → Agree (x also p) (y also q)
also-Agree x y p q h k = ground arith

choose-Agree : (x y p q : Verdict) → Agree x y → Agree p q → Agree (choose x p) (choose y q)
choose-Agree x y p q h k = ground arith

module _ {N : Type 0} where
  some_of-Agree :
      (f g : Json N → Verdict) (bs : List (Json N))
      → All (λ b. Agree (f b) (g b)) bs
      → Agree (some_of f bs) (some_of g bs)
  some_of-Agree f g [] h = Agree-done false
  some_of-Agree f g (b ∷ bs) h =
      choose-Agree (f b) (g b) (some_of f bs) (some_of g bs) h.0 (some_of-Agree f g bs h.1)

  -- The elements of a list lie two levels below a block that holds it.
  any_of-Agree :
      (n : ℕ) (f g : Json N → Verdict) (v : Json N)
      → depth v < n
      → ((b : Json N) → suc (depth b) < n → Agree (f b) (g b))
      → Agree (any_of f v) (any_of g v)
  unfolding depth
  any_of-Agree n f g (arr bs) d h =
      some_of-Agree f g (elems bs)
        (All-weaken (elems bs) (λ b k. h b (omega arith)) (depth-elems bs))
  any_of-Agree n f g _ d h = (refl, cc)

  with_value-Agree :
      (o : Throws (Option (Json N))) (x y : Verdict) (f g : Json N → Verdict)
      → Agree x y
      → ((v : Json N) → o ≡ returns (some v) → Agree (f v) (g v))
      → Agree (with_value o x f) (with_value o y g)
  with_value-Agree throws x y f g h k = (refl, cc)
  with_value-Agree (returns none) x y f g h k = h
  with_value-Agree (returns (some v)) x y f g h k = k v refl

  with_member-Agree :
      (p : Json N) (key : String) (x y : Verdict) (f g : Json N → Verdict)
      → Agree x y
      → ((v : Json N) → depth v < depth p → Agree (f v) (g v))
      → Agree (with_member p key x f) (with_member p key y g)
  with_member-Agree p key x y f g h k =
      with_value-Agree (member p key) x y f g h (λ v e. k v (depth-member p key e))

  -- The bodies agree where the functions that they call agree on what lies deeper.
  block_body-Agree :
      (f g fs gs fc gc j : Json N → Verdict) (b : Json N)
      → ((v : Json N) → depth v < depth b → Agree (f v) (g v))
      → ((v : Json N) → depth v < depth b → Agree (fs v) (gs v))
      → ((v : Json N) → depth v < depth b → Agree (fc v) (gc v))
      → ((v : Json N) → Agree (j v) (j v))
      → Agree (block_body f fs fc j b) (block_body g gs gc j b)
  block_body-Agree f g fs gs fc gc j b hb hs hc hj =
      with_member-Agree b "anyOf" _ _ _ _
        (with_member-Agree b "not" _ _ _ _
          (also-Agree _ _ _ _ (with_member-Agree b "signal" _ _ _ _ (Agree-done true) hs) (
            also-Agree _ _ _ _ (with_member-Agree b "contract" _ _ _ _ (Agree-done true) hc)
              (with_member-Agree b "joins" _ _ _ _ (Agree-done true) (λ v d. hj v))))
          (λ v d. negate-Agree _ _ (hb v d)))
        (λ v d. any_of-Agree (depth b) f g v d (λ w e. hb w (omega arith)))

  nested_body-Agree :
      (key : String) (c f g fs gs : Json N → Verdict) (p : Json N)
      → ((v : Json N) → Agree (c v) (c v))
      → ((v : Json N) → depth v < depth p → Agree (f v) (g v))
      → ((v : Json N) → depth v < depth p → Agree (fs v) (gs v))
      → Agree (nested_body key c f fs p) (nested_body key c g gs p)
  unfolding depth
  nested_body-Agree key c f g fs gs p hc hb hs = also-Agree _ _ _ _ (hc p) (
      also-Agree _ _ _ _
        (with_member-Agree p "anyOf" _ _ _ _ (Agree-done true)
          (λ v d. any_of-Agree (depth p) _ _ v d (λ w e. hb (wrap key w) (omega arith))))
        (with_member-Agree p "not" _ _ _ _ (Agree-done true) (λ v d. negate-Agree _ _ (hs v d))))

module _ (R : Runtime) where
  open R use {Num}

  module _ (ctx : EvaluationContext Num) where
    abbrev Settled : ℕ → ℕ → Type 0
    Settled m n =
        ((b : Json Num)
          → depth b < m
          → depth b < n
          → Agree (eval_block R ctx m b) (eval_block R ctx n b))
        × ((p : Json Num)
            → depth p < m
            → depth p < n
            → Agree (eval_signal_predicates R ctx m p) (eval_signal_predicates R ctx n p))
        × ((p : Json Num)
            → depth p < m
            → depth p < n
            → Agree (eval_contract_predicates R ctx m p) (eval_contract_predicates R ctx n p))

    settled : (m n : ℕ) → Settled m n
    unfolding eval_block
    settled zero n = (λ b d e. elim d [ ], λ b d e. elim d [ ], λ b d e. elim d [ ])
    settled (suc m) zero = (λ b d e. elim e [ ], λ b d e. elim e [ ], λ b d e. elim e [ ])
    settled (suc m) (suc n) =
        let (ihb, ihs, ihc) = settled m n in
        (
          λ b d e.
              block_body-Agree _ _ _ _ _ _ _ b (λ v k. ihb v (omega arith) (omega arith))
                (λ v k. ihs v (omega arith) (omega arith))
                (λ v k. ihc v (omega arith) (omega arith))
                (λ v. of_throws-Agree (join_checks R ctx v)),
          λ p d e.
              nested_body-Agree "signal" _ _ _ _ _ p (λ v. of_throws-Agree (signal_checks R ctx v))
                (λ v k. ihb v (omega arith) (omega arith))
                (λ v k. ihs v (omega arith) (omega arith)),
          λ p d e.
              nested_body-Agree "contract" _ _ _ _ _ p
                (λ v. of_throws-Agree (contract_checks R ctx v))
                (λ v k. ihb v (omega arith) (omega arith))
                (λ v k. ihc v (omega arith) (omega arith)),
        )

    -- With more fuel than the block is deep, `evalBlock` ends, and its verdict is that of
    -- `run_block`: the amount makes no difference.
    pub eval_block-ends :
        (fuel : ℕ) (b : Json Num)
        → depth b < fuel
        → (eval_block R ctx fuel b ≡ run_block R ctx b) × (run_block R ctx b ≢ starved)
    unfolding run_block
    eval_block-ends fuel b d = (
      ((settled fuel (suc (depth b))).0 b d (omega arith)).0,
      ((settled (suc (depth b)) (suc (depth b))).0 b (omega arith) (omega arith)).1,
    )

    -- The evaluation satisfies the equations of its own bodies without their fuel: a block by its
    -- `anyOf`, else its `not`, else its three sections; a signal or contract block by its checks,
    -- then its `anyOf`, each element wrapped into a block of its kind, then its `not`.
    pub run_equations :
        ((b : Json Num)
          → run_block R ctx b
            ≡ block_body
                (run_block R ctx)
                (run_signal R ctx)
                (run_contract R ctx)
                (λ p. of_throws (join_checks R ctx p))
                b)
        × ((p : Json Num)
            → run_signal R ctx p
              ≡ nested_body "signal"
                  (λ q. of_throws (signal_checks R ctx q))
                  (run_block R ctx)
                  (run_signal R ctx)
                  p)
        × ((p : Json Num)
            → run_contract R ctx p
              ≡ nested_body "contract"
                  (λ q. of_throws (contract_checks R ctx q))
                  (run_block R ctx)
                  (run_contract R ctx)
                  p)
    unfolding run_block run_signal run_contract eval_block
    run_equations = (
      λ b.
          (block_body-Agree _ _ _ _ _ _ _ b
            (λ v k. (settled (depth b) (suc (depth v))).0 v k (omega arith))
            (λ v k. (settled (depth b) (suc (depth v))).1 v k (omega arith))
            (λ v k. (settled (depth b) (suc (depth v))).2 v k (omega arith))
            (λ v. of_throws-Agree (join_checks R ctx v))).0,
      λ p.
          (nested_body-Agree "signal" _ _ _ _ _ p (λ v. of_throws-Agree (signal_checks R ctx v))
            (λ v k. (settled (depth p) (suc (depth v))).0 v k (omega arith))
            (λ v k. (settled (depth p) (suc (depth v))).1 v k (omega arith))).0,
      λ p.
          (nested_body-Agree "contract" _ _ _ _ _ p (λ v. of_throws-Agree (contract_checks R ctx v))
            (λ v k. (settled (depth p) (suc (depth v))).0 v k (omega arith))
            (λ v k. (settled (depth p) (suc (depth v))).2 v k (omega arith))).0,
    )
