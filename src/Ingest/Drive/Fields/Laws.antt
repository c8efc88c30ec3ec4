-- ===== src/Ingest/Drive/Fields/Laws.antt =====
-- src/services/migration-orchestrator.service.ts: the contract types and the confidences that are
-- possible.
use musanad_contracts_backen.Base.{
  ℕ, ◌≤◌, ◌≡◌, refl, inl, inr, String, Bool, true, false, Option, none, some, List, [], ◌∷◌, arith,
  Bool-cases,
}
use musanad_contracts_backen.Js.{
  Runtime, Fields, find_field, includes, any, str_includes, to_string,
}
use musanad_contracts_backen.Ingest.Drive.Session.{ExtractedFields}
use musanad_contracts_backen.Ingest.Drive.Fields.{
  type_rules, first_type, contract_type_of, allowed_types, or_empty, first_some, sanitise,
  merge_fields, avg_confidence,
}

-- The type is among those that the table of contracts takes.
abbrev pub IsAllowed : String → Type 0
IsAllowed t = includes allowed_types t ≡ true

-- The types of all rules are allowed.
abbrev AllAllowed : List (List String × String) → Type 0
AllAllowed [] = Unit
AllAllowed ((words, type) ∷ rules) = IsAllowed type × AllAllowed rules

first_type-IsAllowed :
    (rules : List (List String × String)) (lower : String)
    → AllAllowed rules
    → IsAllowed (first_type rules lower)
first_type-IsAllowed [] lower h = refl
first_type-IsAllowed ((words, type) ∷ rules) lower (a, h) =
    elim (Bool-cases (any (str_includes lower) words)) [
      | inl e ↦ rw e a
      | inr e ↦ rw e (first_type-IsAllowed rules lower h)
    ]

pub contract_type_of-IsAllowed : (lower : String) → IsAllowed (contract_type_of lower)
unfolding contract_type_of
contract_type_of-IsAllowed lower =
    first_type-IsAllowed type_rules lower
      (refl, (refl, (refl, (refl, (refl, (refl, (refl, (refl, (refl, (refl, tt))))))))))

-- The confidence in an extraction lies between 40 and 95.
pub avg_confidence-bounds :
    (text_len page_count : ℕ) (ocr_used : Bool) (avg : Option ℕ)
    → (40 ≤ avg_confidence text_len page_count ocr_used avg)
      × (avg_confidence text_len page_count ocr_used avg ≤ 95)
unfolding avg_confidence
avg_confidence-bounds text_len page_count true (some avg) = (ground arith, ground arith)
avg_confidence-bounds text_len page_count true none = (omega arith, omega arith)
avg_confidence-bounds text_len page_count false avg = (ground arith, ground arith)

abbrev pub AllowedIfAny : Option String → Type 0
AllowedIfAny none = Unit
AllowedIfAny (some t) = IsAllowed t

pub sanitise-AllowedIfAny :
    (R : Runtime) (to_lower : String → String) (parsed : Fields R.Num)
    → AllowedIfAny (sanitise R to_lower parsed).contract_type
unfolding sanitise
sanitise-AllowedIfAny R to_lower parsed =
    let raw = to_lower (to_string R (or_empty R (find_field "contractType" parsed))) in
    elim (Bool-cases (includes allowed_types raw)) [ inl e ↦ rw e e | inr e ↦ rw e tt ]

pub merge_fields-IsAllowed :
    {N : Type 0} (llm heuristic : ExtractedFields N) (t : String)
    → AllowedIfAny llm.contract_type
    → heuristic.contract_type ≡ some t
    → IsAllowed t
    → (t' : String) × ((merge_fields llm heuristic).contract_type ≡ some t') × IsAllowed t'
unfolding merge_fields
merge_fields-IsAllowed llm heuristic t h e a = merge llm.contract_type h
  where
    merge :
        (o : Option String)
        → AllowedIfAny o
        → (t' : String) × (first_some o heuristic.contract_type ≡ some t') × IsAllowed t'
    merge none u = (t, e, a)
    merge (some u) b = (u, refl, b)
