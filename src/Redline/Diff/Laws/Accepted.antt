-- ===== src/Redline/Diff/Laws/Accepted.antt =====
-- src/services/contract-redline-import.service.ts: changes that are all accepted, and the merge that
-- they should make.
use musanad_contracts_backen.Base.{
  ◌≡◌, refl, sym, Bool, true, false, not, ◌&&◌, ◌||◌, Option, none, some, List, [], ◌∷◌, ◌++◌, map,
  arith, if◌then◌else◌,
}
use musanad_contracts_backen.Calls.{Units}
use musanad_contracts_backen.Redline.Clauses.{ClauseSegment, blank_units}
use musanad_contracts_backen.Redline.Diff.{
  ChangeType, added, removed, modified, RedlineChange, last_or, by_id, differs, Decided,
  modified_text, is_removed, NewClause, added_here, added_clauses,
}
use musanad_contracts_backen.Redline.Diff.Laws.{decide}

abbrev pub accept_all : List RedlineChange → List Decided
accept_all changes = map (decide true) changes

pub last_or_assoc :
    {A : Type 0} (a b c : Option A) → last_or (last_or a b) c ≡ last_or a (last_or b c)
last_or_assoc none b c = refl
last_or_assoc (some a) b c = refl

pub last_or-none : {A : Type 0} (a : Option A) → last_or a none ≡ a
last_or-none none = refl
last_or-none (some a) = refl

pub last_or_if : {A : Type 0} (b : Bool) (a : Option A) → last_or a (if b then none else none) ≡ a
last_or_if true a = last_or-none a
last_or_if false a = last_or-none a

pub modified_text_append :
    (id : Units) (xs ys : List RedlineChange)
    → modified_text id (accept_all (xs ++ ys))
      ≡ last_or (modified_text id (accept_all ys)) (modified_text id (accept_all xs))
modified_text_append id [] ys = sym (last_or-none (modified_text id (accept_all ys)))
modified_text_append id (x ∷ xs) ys =
    rw (modified_text_append id xs ys)
      (last_or_assoc (modified_text id (accept_all ys)) (modified_text id (accept_all xs)) _)

pub is_removed_append :
    (id : Units) (xs ys : List RedlineChange)
    → is_removed id (accept_all (xs ++ ys))
      ≡ (is_removed id (accept_all xs) || is_removed id (accept_all ys))
is_removed_append id [] ys = refl
is_removed_append id (x ∷ xs) ys = ground (arith, is_removed_append id xs ys)

pub added_here_append :
    (x : RedlineChange) (t : ChangeType) (cs ds : List NewClause)
    → added_here x t (cs ++ ds) ≡ added_here x t cs ++ ds
added_here_append x added cs ds = refl
added_here_append x removed cs ds = refl
added_here_append x modified cs ds = refl

pub added_clauses_append :
    (xs ys : List RedlineChange)
    → added_clauses (accept_all (xs ++ ys))
      ≡ added_clauses (accept_all xs) ++ added_clauses (accept_all ys)
added_clauses_append [] ys = refl
added_clauses_append (x ∷ xs) ys = rw (added_clauses_append xs ys) (
    added_here_append x x.change_type (added_clauses (accept_all xs))
      (added_clauses (accept_all ys)))

-- The text that their segment puts in the place of ours.
abbrev pub replacing : List ClauseSegment → ClauseSegment → Option Units
replacing our ts = if blank_units ts.heading then none else elim (by_id ts.id our) [
  | none ↦ none
  | some os ↦ if differs os ts then some ts.body else none
]

abbrev pub merged : List ClauseSegment → Option ClauseSegment → Option Units
merged our none = none
merged our (some ts) = replacing our ts

-- The text that the merge puts in the place of our segment with the id.
abbrev pub merged_text : (our their : List ClauseSegment) → Units → Option Units
merged_text our their id = merged our (by_id id their)

abbrev pub is_none : Option ClauseSegment → Bool
is_none none = true
is_none (some s) = false

-- The merge leaves our segment out: it has a heading, and theirs has none with its id.
abbrev pub is_dropped : (their : List ClauseSegment) → ClauseSegment → Bool
is_dropped their s = not (blank_units s.heading) && is_none (by_id s.id their)

abbrev pub new_against : ClauseSegment → Option ClauseSegment → List NewClause
new_against ts none = record { heading = ts.heading; body = ts.body } ∷ []
new_against ts (some os) = []

-- Their segments with a heading and an id that none of ours has.
abbrev pub new_of : (our their : List ClauseSegment) → List NewClause
new_of our [] = []
new_of our (ts ∷ their) =
    let rest = new_of our their in
    if blank_units ts.heading then rest else new_against ts (by_id ts.id our) ++ rest
