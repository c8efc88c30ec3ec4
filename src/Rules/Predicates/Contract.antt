-- ===== src/Rules/Predicates/Contract.antt =====
-- src/services/rule-evaluator.service.ts, `evalContractPredicates`: the twelve checks of a contract
-- block, in the order of the source.
use musanad_contracts_backen.Base.{
  String, Bool, true, false, not, Option, none, some, List, [], ◌∷◌, map, ◌=s◌, if◌then◌else◌,
}
use musanad_contracts_backen.Js.{
  Runtime, Json, str, arr, to_string, to_number, option_string, option_number, elems, any, is_str,
  includes, str_includes, member, get_nested_value, Throws, returns, throws, ◌>>=◌, ◌and_then◌,
}
use musanad_contracts_backen.Rules.Context.{
  EntityId, text, number, Money, Clause, ContractContext, EvaluationContext,
}
use musanad_contracts_backen.Rules.Matching.{
  present, some_included, includes_value, or_else, match_string_or_array,
}

-- `required.every((r) => xs.includes(r))`
abbrev pub every_included : {N : Type 0} → List String → List (Json N) → Bool
every_included xs [] = true
every_included xs (r ∷ rs) = if includes_value xs r then every_included xs rs else false

-- `clauses.find((c) => c.clauseTypeV2 === p[key])`: with no clause the predicate is not read.
unfoldable pub find_clause :
    {N : Type 0} → List (Clause N) → Json N → String → Throws (Option (Clause N))
find_clause [] p key = returns none
find_clause (c ∷ cs) p key = elim (member p key) [
  | throws ↦ throws
  | returns o ↦ elim o [
    | none ↦ find_clause cs p key
    | some wanted ↦
        if is_str wanted c.clause_type_v2 then returns (some c) else find_clause cs p key
  ]
]

module _ (R : Runtime) where
  open R use {Num, less, infinity, show}

  -- `String(e.id)`
  abbrev pub id_string : EntityId Num → String
  id_string (text s) = s
  id_string (number n) = show n

  unfoldable pub has_clause : List (Clause Num) → Json Num → Bool
  unfolding to_string
  has_clause clauses (arr xs) =
      every_included {N = Num} (map (λ c. c.clause_type_v2) clauses) (elems xs)
  has_clause clauses v =
      every_included {N = Num} (map (λ c. c.clause_type_v2) clauses) (str (to_string R v) ∷ [])

  unfoldable pub clause_parameter : List (Clause Num) → Json Num → Throws Bool
  unfolding to_string get_nested_value find_clause
  clause_parameter clauses p = do
    found ← find_clause clauses p "clause"
    elim found [
      | none ↦ returns false
      | some c ↦ member p "path" >>= λ path. get_nested_value R c.parameters path >>= λ val.
          present "equals" (λ e. returns (option_string R val =s to_string R e)) p
    ]

  -- The amount is read only if the contract has a value; a missing one compares as NaN.
  unfoldable pub value_at_least : Option (Money Num) → Json Num → Throws Bool
  unfolding to_number
  value_at_least none vm = returns false
  value_at_least (some money) vm = do
    amount ← member vm "amount"
    returns (not (less money.amount (option_number R amount)))

  module _ (ctx : EvaluationContext Num) where
    abbrev pub contract : ContractContext Num
    contract = ctx.contract

    unfoldable pub in_graph_descendants : Json Num → Bool
    unfolding to_string
    in_graph_descendants v =
        if str_includes (to_string R v) "$signal.affected_entities"
        then any (λ s. includes (map (λ c. show c.id) contract.counterparty.chain) s)
            (map (λ e. id_string e.id) ctx.signal.affected_entities)
        else true

    unfoldable pub contract_checks : Json Num → Throws Bool
    unfolding match_string_or_array in_graph_descendants has_clause clause_parameter value_at_least
        to_number
    contract_checks cp =
        present "status" (λ v. returns (match_string_or_array R contract.status v)) cp
        and_then present "contractType"
            (λ v. returns (match_string_or_array R contract.contract_type v)) cp
        and_then present "businessUnit"
            (λ v. returns (match_string_or_array R (or_else contract.business_unit "") v)) cp
        and_then present "counterpartyIdInGraphDescendantsOf"
            (λ v. returns (in_graph_descendants v)) cp
        and_then present "hasClause" (λ v. returns (has_clause contract.clauses v)) cp
        and_then present "clauseParameter" (clause_parameter contract.clauses) cp
        and_then present "governingLaw"
            (λ v. returns (match_string_or_array R (or_else contract.governing_law "") v)) cp
        and_then present "currency"
            (λ v. returns (match_string_or_array R (or_else contract.currency "") v)) cp
        and_then present "valueMin" (value_at_least contract.value_min) cp
        and_then present "geographyIntersects"
            (λ v. some_included v (or_else contract.geographies [])) cp
        and_then present "routeIntersects" (λ v. some_included v (or_else contract.routes [])) cp
        and_then present "renewalWithinDays"
            (λ v.
              returns (not (less (to_number R v) (or_else contract.renewal_within_days infinity))))
            cp
