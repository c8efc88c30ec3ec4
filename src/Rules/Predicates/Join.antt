-- ===== src/Rules/Predicates/Join.antt =====
-- src/services/rule-evaluator.service.ts, `evalJoinPredicates`: the four checks that relate a signal
-- and a contract.
use musanad_contracts_backen.Base.{
  String, Bool, false, not, ◌&&◌, Option, none, some, List, [], ◌∷◌, map, if◌then◌else◌,
}
use musanad_contracts_backen.Js.{
  Runtime, Json, to_number, option_number, any, is_str, includes, member, get_nested_value, Throws,
  returns, ◌>>=◌, ◌and_then◌,
}
use musanad_contracts_backen.Rules.Context.{Clause, EvaluationContext}
use musanad_contracts_backen.Rules.Matching.{present, flat_regions, or_else}
use musanad_contracts_backen.Rules.Predicates.Contract.{find_clause, id_string}

abbrev pub option_is : {N : Type 0} → Option (Json N) → String → Bool
option_is none s = false
option_is (some v) s = is_str v s

module _ (R : Runtime) where
  open R use {Num, less, at_most, sub, quot, abs, is_finite, of_ℕ, show, date_ms}

  -- The two comparators that the source knows; any other passes.
  unfoldable pub crosses : Option (Json Num) → Num → Bool
  crosses comparator n =
      if option_is comparator "crosses_threshold_high" && at_most n (of_ℕ 0)
      then false
      else not (option_is comparator "crosses_threshold_low" && at_most (of_ℕ 0) n)

  unfoldable pub index_threshold : Json Num → List (Clause Num) → Json Num → Throws Bool
  unfolding get_nested_value find_clause to_number crosses
  index_threshold payload clauses p = do
    index ← member p "signalIndex"
    sig_val ← get_nested_value R payload index
    found ← find_clause clauses p "contractClause"
    elim found [
      | none ↦ returns false
      | some c ↦ elim sig_val [
        | none ↦ returns false
        | some v ↦
            if is_finite (to_number R v)
            then (member p "comparator" >>= λ comparator.
                returns (crosses comparator (to_number R v)))
            else returns false
      ]
    ]

  unfoldable pub temporal : Num → String → Json Num → Throws Bool
  unfolding to_number
  temporal clock event_date p = do
    days ← member p "days"
    returns (
        not (
          less (option_number R days)
            (quot (abs (sub clock (date_ms event_date))) (of_ℕ 86400000))))

  module _ (ctx : EvaluationContext Num) where
    abbrev pub counterparty_ids : List String
    counterparty_ids =
        show ctx.contract.counterparty.id ∷ map (λ c. show c.id) ctx.contract.counterparty.chain

    unfoldable pub join_checks : Json Num → Throws Bool
    unfolding index_threshold temporal
    join_checks jp =
        present "geographyOverlap"
          (λ v. returns (
            any (includes (or_else ctx.contract.geographies []))
              (flat_regions ctx.signal.geographies)))
          jp
        and_then present "entityMatch"
            (λ v. returns (
              any (includes counterparty_ids)
                (map (λ e. id_string R e.id) ctx.signal.affected_entities)))
            jp
        and_then present "indexThreshold"
            (index_threshold ctx.signal.raw_payload ctx.contract.clauses) jp
        and_then present "temporal" (temporal ctx.clock ctx.signal.event_date) jp
