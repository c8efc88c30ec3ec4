-- ===== src/Rules/Evaluate.antt =====
-- src/services/rule-evaluator.service.ts: `evalBlock`, `evalAnyOf` and the nested `anyOf` and `not`
-- of a signal or contract block. The three functions call one another on parts of a block that are
-- found by name, so they take fuel; one unit more than the depth of the block is enough
-- (Rules/Evaluate/Fuel).
pub mod Fuel
pub mod Laws
use musanad_contracts_backen.Base.{
  ℕ, zero, suc, String, Bool, true, false, not, Option, none, some, List, [], ◌∷◌,
}
use musanad_contracts_backen.Js.{
  Runtime, Json, arr, obj, end, field, depth, elems, member, Throws, returns, throws,
}
use musanad_contracts_backen.Rules.Context.{EvaluationContext}
use musanad_contracts_backen.Rules.Predicates.Signal.{signal_checks}
use musanad_contracts_backen.Rules.Predicates.Contract.{contract_checks}
use musanad_contracts_backen.Rules.Predicates.Join.{join_checks}

-- What an evaluation ends with: a value, an exception, or no fuel.
pub data Verdict : Type 0 where
  done : Bool → Verdict
  threw : Verdict
  starved : Verdict

abbrev pub negate : Verdict → Verdict
negate (done b) = done (not b)
negate threw = threw
negate starved = starved

-- `result = result && q()`, and `if (!p) return false; … q()`.
infixr 5 ◌also◌
abbrev pub ◌also◌ : Verdict → Verdict → Verdict
done true also q = q
done false also q = done false
threw also q = threw
starved also q = starved

abbrev pub of_throws : Throws Bool → Verdict
of_throws (returns b) = done b
of_throws throws = threw

abbrev pub choose : Verdict → Verdict → Verdict
choose (done true) later = done true
choose (done false) later = later
choose threw later = threw
choose starved later = starved

module _ {N : Type 0} where
  -- `blocks.some(test)` on a list.
  abbrev pub some_of : (Json N → Verdict) → List (Json N) → Verdict
  some_of test [] = done false
  some_of test (b ∷ bs) = choose (test b) (some_of test bs)

  -- `blocks.some(test)` on a value of unknown shape.
  abbrev pub any_of : (Json N → Verdict) → Json N → Verdict
  any_of test (arr bs) = some_of test (elems bs)
  any_of test _ = threw

  -- `{ [key]: v }`
  abbrev pub wrap : String → Json N → Json N
  wrap key v = obj (field key v end)

  -- `if (p[key] !== undefined) { … }`, where what follows if it is absent is `missing`.
  abbrev pub with_value : Throws (Option (Json N)) → Verdict → (Json N → Verdict) → Verdict
  with_value throws missing test = threw
  with_value (returns none) missing test = missing
  with_value (returns (some v)) missing test = test v

  abbrev pub with_member : Json N → String → Verdict → (Json N → Verdict) → Verdict
  with_member p key missing test = with_value (member p key) missing test

  -- The body of `evalBlock`, over the functions that it calls.
  abbrev pub block_body : (block signal contract join : Json N → Verdict) → Json N → Verdict
  block_body block signal contract join b =
      with_member b "anyOf"
        (with_member b "not"
          (with_member b "signal" (done true) signal
            also with_member b "contract" (done true) contract
            also with_member b "joins" (done true) join)
          (λ n. negate (block n)))
        (any_of block)

  -- The end of `evalSignalPredicates` and `evalContractPredicates`, over the functions that they
  -- call; `key` names the kind of block.
  abbrev pub nested_body : (key : String) (checks block self : Json N → Verdict) → Json N → Verdict
  nested_body key checks block self p =
      checks p
      also with_member p "anyOf" (done true) (any_of (λ s. block (wrap key s)))
      also with_member p "not" (done true) (λ n. negate (self n))

module _ (R : Runtime) where
  open R use {Num}

  module _ (ctx : EvaluationContext Num) where
    unfoldable mutual
      pub eval_block : ℕ → Json Num → Verdict
      eval_block zero b = starved
      eval_block (suc fuel) b =
          block_body (eval_block fuel) (eval_signal_predicates fuel) (eval_contract_predicates fuel)
            (λ p. of_throws (join_checks R ctx p)) b

      pub eval_signal_predicates : ℕ → Json Num → Verdict
      eval_signal_predicates zero p = starved
      eval_signal_predicates (suc fuel) p =
          nested_body "signal" (λ q. of_throws (signal_checks R ctx q)) (eval_block fuel)
            (eval_signal_predicates fuel) p

      pub eval_contract_predicates : ℕ → Json Num → Verdict
      eval_contract_predicates zero p = starved
      eval_contract_predicates (suc fuel) p =
          nested_body "contract" (λ q. of_throws (contract_checks R ctx q)) (eval_block fuel)
            (eval_contract_predicates fuel) p

    -- `evalBlock(block, ctx)`, with the fuel that its depth asks for.
    unfoldable pub run_block : Json Num → Verdict
    unfolding depth eval_block
    run_block b = eval_block (suc (depth b)) b

    -- `evalSignalPredicates(p, ctx)` and `evalContractPredicates(p, ctx)` likewise.
    pub run_signal : Json Num → Verdict
    unfolding depth eval_block
    run_signal p = eval_signal_predicates (suc (depth p)) p

    pub run_contract : Json Num → Verdict
    unfolding depth eval_block
    run_contract p = eval_contract_predicates (suc (depth p)) p

    abbrev pub caught : Verdict → Bool
    caught (done b) = b
    caught _ = false

    -- The entry point: what the evaluation throws is logged, and the block does not match.
    unfoldable pub evaluate_match_block : Json Num → Bool
    unfolding run_block
    evaluate_match_block b = caught (run_block b)
