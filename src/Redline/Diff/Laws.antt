-- ===== src/Redline/Diff/Laws.antt =====
-- src/services/contract-redline-import.service.ts: what the accepted changes of a diff make of our
-- clauses.
pub mod Accepted
pub mod Theirs
pub mod Ours
pub mod Merge
use mathlib.Core.Path.{subst}
use mathlib.Core.List.{append-nil}
use musanad_contracts_backen.Base.{
  ℕ, ◌≡◌, refl, sym, ap, ◌∙◌, inl, inr, Bool, true, false, not, ◌&&◌, ◌||◌, Option, none, some,
  List, [], ◌∷◌, ◌++◌, map, Bool-cases, Option-cases, arith, ◌==◌, if◌then◌else◌,
}
use musanad_contracts_backen.Js.Laws.{All, All-weaken}
use musanad_contracts_backen.Calls.{Units, same_units}
use musanad_contracts_backen.Calls.Laws.{same_units_refl, same_units_eq}
use musanad_contracts_backen.Redline.Clauses.{ClauseSegment, blank_units}
use musanad_contracts_backen.Redline.Diff.{
  normalize, RedlineChange, last_or, by_id, differs, change_against, their_changes, removal_of,
  our_removals, diff_segments, Decided, or_blank, modified_here, modified_text, removed_here,
  is_removed, NewClause, added_here, added_clauses, kept_clause, kept_clauses, new_clauses,
}

-- No two segments have one id.
abbrev pub IsDistinct : List ClauseSegment → Type 0
IsDistinct [] = Unit
IsDistinct (s ∷ segments) = All (λ t. same_units t.id s.id ≡ false) segments × IsDistinct segments

pub by_id-other :
    (id : Units) (segments : List ClauseSegment)
    → All (λ t. same_units t.id id ≡ false) segments
    → by_id id segments ≡ none
by_id-other id [] h = refl
by_id-other id (s ∷ segments) (e, h) = rw (e, by_id-other id segments h) refl

-- A segment is found under its own id.
pub by_id-own :
    (segments : List ClauseSegment)
    → IsDistinct segments
    → All (λ s. by_id s.id segments ≡ some s) segments
by_id-own [] h = tt
by_id-own (s ∷ segments) (e, h) = (
  rw (by_id-other s.id segments e, same_units_refl s.id) refl,
  All-weaken segments (λ t q. rw q refl) (by_id-own segments h),
)

abbrev pub decide : Bool → RedlineChange → Decided
decide accepted ch = record { change = ch; is_accepted = accepted }

-- What `drops` and `text` make of our segments.
abbrev pub keep_by :
    (drops : ClauseSegment → Bool) (text : ClauseSegment → Option Units)
    → List ClauseSegment
    → List NewClause
keep_by drops text [] = []
keep_by drops text (s ∷ our) =
    let rest = keep_by drops text our in if drops s then rest else kept_clause s (text s) ∷ rest

pub kept_clauses-keep_by :
    (changes : List Decided) (drops : ClauseSegment → Bool) (text : ClauseSegment → Option Units)
    (our : List ClauseSegment)
    → All (λ s. (is_removed s.id changes ≡ drops s) × (modified_text s.id changes ≡ text s)) our
    → kept_clauses changes our ≡ keep_by drops text our
kept_clauses-keep_by changes drops text [] h = refl
kept_clauses-keep_by changes drops text (s ∷ our) ((r, t), h) =
    rw (r, t, kept_clauses-keep_by changes drops text our h) refl

every {ℓ} : {A : Type 0} {P : A → Type ℓ} (xs : List A) → ((a : A) → P a) → All P xs
every [] f = tt
every (x ∷ xs) f = (f x, every xs f)

none_removed :
    (id : Units) (cs : List RedlineChange) → is_removed id (map (decide false) cs) ≡ false
none_removed id [] = refl
none_removed id (c ∷ cs) = none_removed id cs

none_modified :
    (id : Units) (cs : List RedlineChange) → modified_text id (map (decide false) cs) ≡ none
none_modified id [] = refl
none_modified id (c ∷ cs) = none_modified id cs

none_added : (cs : List RedlineChange) → added_clauses (map (decide false) cs) ≡ []
none_added [] = refl
none_added (c ∷ cs) = none_added cs

-- With no change accepted, the new body has our clauses as they are.
pub new_clauses-rejected :
    (our : List ClauseSegment) (changes : List RedlineChange)
    → new_clauses our (map (decide false) changes) ≡ keep_by (λ s. false) (λ s. none) our
unfolding new_clauses
new_clauses-rejected our changes = rw (none_added changes) (
    append-nil (kept_clauses (map (decide false) changes) our)
    ∙ kept_clauses-keep_by (map (decide false) changes) (λ s. false) (λ s. none) our
        (every our (λ s. (none_removed s.id changes, none_modified s.id changes))))

differs_self : (s : ClauseSegment) → differs s s ≡ false
differs_self s = rw (same_units_refl (normalize s.body)) refl

own_changes :
    (our segments : List ClauseSegment)
    → All (λ s. by_id s.id our ≡ some s) segments
    → (their_changes our segments ≡ []) × (our_removals our segments ≡ [])
own_changes our [] h = (refl, refl)
own_changes our (s ∷ segments) (e, h) =
    let (a, b) = own_changes our segments h in
    elim (Bool-cases (blank_units s.heading)) [
      | inl n ↦ rw n (a, b)
      | inr n ↦ rw (n, e) (rw (differs_self s) (a, b))
    ]

-- A contract whose clauses have different ids has no changes against itself.
pub diff_segments_self : (our : List ClauseSegment) → IsDistinct our → diff_segments our our ≡ []
unfolding diff_segments
diff_segments_self our h = let (a, b) = own_changes our our (by_id-own our h) in rw (a, b) refl
