-- ===== src/Redline/Diff/Laws/Theirs.antt =====
-- src/services/contract-redline-import.service.ts: what the first loop of the diff makes of our clauses.
use mathlib.Core.Path.{subst}
use musanad_contracts_backen.Base.{
  ◌≡◌, refl, sym, ap, ◌∙◌, inl, inr, false, Option, none, some, List, [], ◌∷◌, ◌++◌, Bool-cases,
  arith, if◌then◌else◌,
}
use musanad_contracts_backen.Calls.Laws.{same_units_eq}
use musanad_contracts_backen.Calls.{Units, same_units}
use musanad_contracts_backen.Redline.Clauses.{ClauseSegment, blank_units}
use musanad_contracts_backen.Redline.Diff.{
  last_or, by_id, differs, change_against, their_changes, modified_text, is_removed, added_clauses,
}
use musanad_contracts_backen.Redline.Diff.Laws.{IsDistinct, by_id-other}
use musanad_contracts_backen.Redline.Diff.Laws.Accepted.{
  accept_all, last_or-none, last_or_if, modified_text_append, is_removed_append,
  added_clauses_append, replacing, merged, merged_text, new_against, new_of,
}

abbrev pub text_against : ClauseSegment → Option ClauseSegment → Option Units
text_against ts none = none
text_against ts (some os) = if differs os ts then some ts.body else none

pub change_modifies :
    (id : Units) (ts : ClauseSegment) (o : Option ClauseSegment)
    → modified_text id (accept_all (change_against ts o))
      ≡ (if same_units ts.id id then text_against ts o else none)
change_modifies id ts none = ground arith
change_modifies id ts (some os) = elim (Bool-cases (differs os ts)) [
  | inl d ↦ rw d refl
  | inr d ↦ rw d (ground arith)
]

pub change_keeps :
    (id : Units) (ts : ClauseSegment) (o : Option ClauseSegment)
    → is_removed id (accept_all (change_against ts o)) ≡ false
change_keeps id ts none = refl
change_keeps id ts (some os) = elim (Bool-cases (differs os ts)) [
  | inl d ↦ rw d refl
  | inr d ↦ rw d refl
]

pub replacing_lem :
    (our : List ClauseSegment) (ts : ClauseSegment)
    → blank_units ts.heading ≡ false
    → text_against ts (by_id ts.id our) ≡ replacing our ts
replacing_lem our ts n = rw n (go (by_id ts.id our))
  where
    go :
        (o : Option ClauseSegment)
        → text_against ts o
          ≡ elim o [ none ↦ none | some os ↦ if differs os ts then some ts.body else none ]
    go none = refl
    go (some os) = refl

pub their_changes-next :
    (id : Units) (our their : List ClauseSegment) (ts : ClauseSegment)
    → modified_text id (accept_all (their_changes our (ts ∷ their)))
      ≡ last_or
          (modified_text id (accept_all (their_changes our their)))
          (if same_units ts.id id then replacing our ts else none)
their_changes-next id our their ts = elim (Bool-cases (blank_units ts.heading)) [
  | inl n ↦ rw n (
      sym (
        last_or_if (same_units ts.id id) (modified_text id (accept_all (their_changes our their)))))
  | inr n ↦
      let opened : their_changes our (ts ∷ their)
          ≡ change_against ts (by_id ts.id our) ++ their_changes our their =
        rw n refl in
      ap (λ cs. modified_text id (accept_all cs)) opened
      ∙ modified_text_append id (change_against ts (by_id ts.id our)) (their_changes our their)
      ∙ ap (last_or (modified_text id (accept_all (their_changes our their)))) (
          change_modifies id ts (by_id ts.id our)
          ∙ ap (λ t. if same_units ts.id id then t else none) (replacing_lem our ts n))
]

pub their_changes-modified :
    (id : Units) (our their : List ClauseSegment)
    → IsDistinct their
    → modified_text id (accept_all (their_changes our their)) ≡ merged_text our their id
their_changes-modified id our [] h = refl
their_changes-modified id our (ts ∷ their) (e, h) =
    let rest = their_changes-modified id our their h in
    their_changes-next id our their ts ∙ elim (Bool-cases (same_units ts.id id)) [
      | inl q ↦
          let none_else : by_id id their ≡ none =
            subst (λ i. by_id i their ≡ none) (same_units_eq ts.id id q)
              (by_id-other ts.id their e) in
          rw q (
            ap (λ o. last_or o (replacing our ts)) (rest ∙ ap (merged our) none_else)
            ∙ ap (λ o. merged our (last_or o (some ts))) (sym none_else))
      | inr q ↦ rw q (last_or-none _ ∙ rest ∙ ap (merged our) (sym (last_or-none (by_id id their))))
    ]

pub their_changes-keeps :
    (id : Units) (our their : List ClauseSegment)
    → is_removed id (accept_all (their_changes our their)) ≡ false
their_changes-keeps id our [] = refl
their_changes-keeps id our (ts ∷ their) = elim (Bool-cases (blank_units ts.heading)) [
  | inl n ↦ rw n (their_changes-keeps id our their)
  | inr n ↦ rw n (
      is_removed_append id (change_against ts (by_id ts.id our)) (their_changes our their)
      ∙ rw (change_keeps id ts (by_id ts.id our)) (their_changes-keeps id our their))
]

pub change_adds :
    (ts : ClauseSegment) (o : Option ClauseSegment)
    → added_clauses (accept_all (change_against ts o)) ≡ new_against ts o
change_adds ts none = refl
change_adds ts (some os) = elim (Bool-cases (differs os ts)) [
  | inl d ↦ rw d refl
  | inr d ↦ rw d refl
]

pub their_changes-adds :
    (our their : List ClauseSegment)
    → added_clauses (accept_all (their_changes our their)) ≡ new_of our their
their_changes-adds our [] = refl
their_changes-adds our (ts ∷ their) = elim (Bool-cases (blank_units ts.heading)) [
  | inl n ↦ rw n (their_changes-adds our their)
  | inr n ↦ rw n (
      added_clauses_append (change_against ts (by_id ts.id our)) (their_changes our their)
      ∙ ap (λ cs. cs ++ added_clauses (accept_all (their_changes our their)))
          (change_adds ts (by_id ts.id our))
      ∙ ap (λ cs. new_against ts (by_id ts.id our) ++ cs) (their_changes-adds our their))
]
