-- ===== src/Rules/Predicates/Overlap.antt =====
-- src/services/rule-evaluator.service.ts: the predicates that look for an element that two lists
-- share.
use mathlib.Core.Path.{subst}
use musanad_contracts_backen.Base.{
  ◌≡◌, ◌≢◌, refl, sym, ◌↔◌, Option, some, ◌⊎◌, inl, inr, String, true, List, [], ◌∷◌, map, ◌=s◌,
  =s_iff, Bool-cases,
}
use musanad_contracts_backen.Js.{Runtime, Json, obj, end, field, any, includes}
use musanad_contracts_backen.Rules.Context.{Geography, EvaluationContext}
use musanad_contracts_backen.Rules.Predicates.Contract.{id_string}

-- A text stands in a list.
abbrev pub Has : String → List String → Type 0
Has s [] = ⊥
Has s (x ∷ xs) = (x ≡ s) ⊎ Has s xs

abbrev pub Shared : List String → List String → Type 0
Shared xs ys = (s : String) × Has s xs × Has s ys

pub includes_iff : (xs : List String) (s : String) → (includes xs s ≡ true) ↔ Has s xs
includes_iff [] s = (λ h. absurd (cc), λ h. absurd h)
includes_iff (x ∷ xs) s = elim (Bool-cases (x =s s)) [
  | inl e ↦ (λ h. inl ((=s_iff x s).0 e), λ h. rw e)
  | inr e ↦ (
    λ h. inr ((includes_iff xs s).0 (rw e at h)),
    λ h. elim h [ inl p ↦ rw ((=s_iff x s).1 p) | inr p ↦ rw e ((includes_iff xs s).1 p) ],
  )
]

pub Shared-iff : (xs ys : List String) → (any (includes ys) xs ≡ true) ↔ Shared xs ys
Shared-iff [] ys = (λ h. absurd (cc), λ h. absurd h.1)
Shared-iff (x ∷ xs) ys = elim (Bool-cases (includes ys x)) [
  | inl e ↦ (λ h. (x, inl refl, (includes_iff ys x).0 e), λ h. rw e)
  | inr e ↦ (
    λ h. let (s, a, b) = (Shared-iff xs ys).0 (rw e at h) in (s, inr a, b),
    λ (s, a, b). elim a [
      | inl p ↦ cc (e, subst (λ t. includes ys t ≡ true) (sym p) ((includes_iff ys s).1 b))
      | inr p ↦ rw e ((Shared-iff xs ys).1 (s, p, b))
    ],
  )
]

-- A field of a geography that is given and not the empty text.
abbrev pub IsRegion : String → Option String → Type 0
IsRegion s o = (o ≡ some s) × (s ≢ "")

-- A text names the region or the country of one of the geographies.
abbrev pub Located : {N : Type 0} → String → List (Geography N) → Type 0
Located s [] = ⊥
Located s (g ∷ gs) = IsRegion s g.named_region ⊎ IsRegion s g.iso_code ⊎ Located s gs

module _ (R : Runtime) where
  open R use {Num, show}

  module _ (ctx : EvaluationContext Num) where
    abbrev pub signal_ids : List String
    signal_ids = map (λ e. id_string R e.id) ctx.signal.affected_entities

    abbrev pub chain_ids : List String
    chain_ids = map (λ c. show c.id) ctx.contract.counterparty.chain

    abbrev joins_of : String → Json Num → Json Num
    joins_of key v = obj (field key v end)
