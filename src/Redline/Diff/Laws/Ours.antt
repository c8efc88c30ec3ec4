-- ===== src/Redline/Diff/Laws/Ours.antt =====
-- src/services/contract-redline-import.service.ts: what the second loop of the diff makes of our clauses.
use mathlib.Core.Path.{subst}
use musanad_contracts_backen.Base.{
  ◌≡◌, refl, sym, ap, ◌∙◌, inl, inr, Bool, true, false, ◌&&◌, ◌||◌, Option, none, some, List, [],
  ◌∷◌, Bool-cases, arith,
}
use musanad_contracts_backen.Calls.Laws.{same_units_eq}
use musanad_contracts_backen.Calls.{Units, same_units}
use musanad_contracts_backen.Redline.Clauses.{ClauseSegment, blank_units}
use musanad_contracts_backen.Redline.Diff.{
  last_or, by_id, removal_of, our_removals, modified_text, is_removed, added_clauses,
}
use musanad_contracts_backen.Redline.Diff.Laws.{IsDistinct, by_id-other}
use musanad_contracts_backen.Redline.Diff.Laws.Accepted.{
  accept_all, last_or-none, modified_text_append, is_removed_append, added_clauses_append, is_none,
  is_dropped,
}

pub removal_lem :
    (id : Units) (os : ClauseSegment) (o : Option ClauseSegment)
    → (modified_text id (accept_all (removal_of os o)) ≡ none)
      × (is_removed id (accept_all (removal_of os o)) ≡ (same_units os.id id && is_none o))
      × (added_clauses (accept_all (removal_of os o)) ≡ [])
removal_lem id os none = (refl, ground arith, refl)
removal_lem id os (some ts) = (refl, ground arith, refl)

pub our_removals-only :
    (id : Units) (their our : List ClauseSegment)
    → (modified_text id (accept_all (our_removals their our)) ≡ none)
      × (added_clauses (accept_all (our_removals their our)) ≡ [])
our_removals-only id their [] = (refl, refl)
our_removals-only id their (os ∷ our) =
    let (a, b) = our_removals-only id their our in
    let (m, r, d) = removal_lem id os (by_id os.id their) in
    elim (Bool-cases (blank_units os.heading)) [
      | inl n ↦ rw n (a, b)
      | inr n ↦ rw n (
        modified_text_append id (removal_of os (by_id os.id their)) (our_removals their our)
            ∙ rw a m,
        added_clauses_append (removal_of os (by_id os.id their)) (our_removals their our) ∙ rw d b,
      )
    ]

-- Whether one of the segments has the id, a heading, and no counterpart.
abbrev pub dropped_in : (their : List ClauseSegment) → Units → Option ClauseSegment → Bool
dropped_in their id none = false
dropped_in their id (some os) = is_dropped their os

pub and_false : (a b : Bool) → b ≡ ((a && false) || b)
and_false true b = refl
and_false false b = refl

pub or_false : (a : Bool) → (a || false) ≡ a
or_false true = refl
or_false false = refl

pub our_removals-next :
    (id : Units) (their our : List ClauseSegment) (os : ClauseSegment)
    → is_removed id (accept_all (our_removals their (os ∷ our))) ≡ (
        (same_units os.id id && is_dropped their os)
        || is_removed id (accept_all (our_removals their our)))
our_removals-next id their our os = elim (Bool-cases (blank_units os.heading)) [
  | inl n ↦ rw n (and_false (same_units os.id id) _)
  | inr n ↦ rw n (
      is_removed_append id (removal_of os (by_id os.id their)) (our_removals their our)
      ∙ ap (λ b. b || is_removed id (accept_all (our_removals their our)))
          (removal_lem id os (by_id os.id their)).1)
]

pub our_removals-removes :
    (id : Units) (their our : List ClauseSegment)
    → IsDistinct our
    → is_removed id (accept_all (our_removals their our)) ≡ dropped_in their id (by_id id our)
our_removals-removes id their [] h = refl
our_removals-removes id their (os ∷ our) (e, h) =
    let rest = our_removals-removes id their our h in
    our_removals-next id their our os ∙ elim (Bool-cases (same_units os.id id)) [
      | inl q ↦
          let none_else : by_id id our ≡ none =
            subst (λ i. by_id i our ≡ none) (same_units_eq os.id id q) (by_id-other os.id our e) in
          rw q (
            ap (λ b. is_dropped their os || b) (rest ∙ ap (dropped_in their id) none_else)
            ∙ or_false (is_dropped their os)
            ∙ ap (λ o. dropped_in their id (last_or o (some os))) (sym none_else))
      | inr q ↦ rw q (rest ∙ ap (dropped_in their id) (sym (last_or-none (by_id id our))))
    ]
