-- ===== src/Redline/Diff.antt =====
-- src/services/contract-redline-import.service.ts: the changes of the counterparty's text against ours,
-- and the body that the accepted changes make.
pub mod Laws
use musanad_contracts_backen.Base.{
  ℕ, zero, suc, ◌+◌, ◌-◌, Bool, true, false, not, ◌&&◌, ◌||◌, Option, none, some, List, [], ◌∷◌,
  ◌++◌, map, codes, take, length, ltb, leb, ◌==◌, if◌then◌else◌,
}
use musanad_contracts_backen.Chars.{is_space, trim, has_prefix}
use musanad_contracts_backen.Calls.{Units, same_units}
use musanad_contracts_backen.Redline.Clauses.{
  ClauseSegment, blank_units, is_slug_char, squeeze, split_lines, join_lines, parse_clauses,
  decimal,
}

-- `s.replace(/\s+/g, ' ')`; `gap` is whether a run of blanks is open.
abbrev pub squeeze_blanks : (gap : Bool) → Units → Units
squeeze_blanks gap [] = []
squeeze_blanks gap (c ∷ s) =
    let kept = squeeze_blanks false s in
    let skipped = squeeze_blanks true s in
    if is_space c then (if gap then skipped else 32 ∷ skipped) else c ∷ kept

-- `normalize`
unfoldable pub normalize : Units → Units
normalize t = trim (squeeze_blanks false t)

pub data ChangeType : Type 0 where
  added removed modified : ChangeType

pub record RedlineChange : Type 0 where
  pub clause_id : Units
  pub clause_heading : Units
  pub change_type : ChangeType
  pub our_text : Option Units
  pub their_text : Option Units

abbrev pub last_or {ℓ} : {A : Type ℓ} → Option A → Option A → Option A
last_or none a = a
last_or (some b) a = some b

-- `new Map(segments.map((s) => [s.id, s])).get(id)`: the last segment with the id.
abbrev pub by_id : Units → List ClauseSegment → Option ClauseSegment
by_id id [] = none
by_id id (s ∷ segments) = last_or (by_id id segments) (if same_units s.id id then some s else none)

abbrev pub differs : ClauseSegment → ClauseSegment → Bool
differs os ts =
    not (same_units (normalize os.body) (normalize ts.body)) && not (blank_units (trim ts.body))

abbrev pub change_against : ClauseSegment → Option ClauseSegment → List RedlineChange
change_against ts none =
    record {
      clause_id = ts.id;
      clause_heading = ts.heading;
      change_type = added;
      our_text = none;
      their_text = some ts.body;
    }
    ∷ []
change_against ts (some os) =
    if differs os ts
    then record {
      clause_id = ts.id;
      clause_heading = ts.heading;
      change_type = modified;
      our_text = some os.body;
      their_text = some ts.body;
    }
      ∷ []
    else []

-- The first loop of `diffClauses`.
abbrev pub their_changes : List ClauseSegment → List ClauseSegment → List RedlineChange
their_changes our [] = []
their_changes our (ts ∷ their) =
    let rest = their_changes our their in
    if blank_units ts.heading then rest else change_against ts (by_id ts.id our) ++ rest

abbrev pub removal_of : ClauseSegment → Option ClauseSegment → List RedlineChange
removal_of os (some ts) = []
removal_of os none =
    record {
      clause_id = os.id;
      clause_heading = os.heading;
      change_type = removed;
      our_text = some os.body;
      their_text = none;
    }
    ∷ []

-- The second loop.
abbrev pub our_removals : List ClauseSegment → List ClauseSegment → List RedlineChange
our_removals their [] = []
our_removals their (os ∷ our) =
    let rest = our_removals their our in
    if blank_units os.heading then rest else removal_of os (by_id os.id their) ++ rest

unfoldable pub diff_segments : (our their : List ClauseSegment) → List RedlineChange
unfolding normalize
diff_segments our their = their_changes our their ++ our_removals their our

-- A stored change with the decision on it.
pub record Decided : Type 0 where
  pub change : RedlineChange
  pub is_accepted : Bool  -- decision === 'accepted'

abbrev pub or_blank : Option Units → Units
or_blank none = []
or_blank (some t) = t

-- What `buildNewBody` does with a change that was accepted, on the text under the id.
abbrev pub modified_here : Units → RedlineChange → ChangeType → Option Units
modified_here id ch modified =
    if same_units ch.clause_id id then some (or_blank ch.their_text) else none
modified_here id ch _ = none

-- `modified.get(id)`: what the last accepted modification of the clause sets.
abbrev pub modified_text : Units → List Decided → Option Units
modified_text id [] = none
modified_text id (d ∷ changes) =
    let rest = modified_text id changes in
    if d.is_accepted then last_or rest (modified_here id d.change d.change.change_type) else rest

abbrev pub removed_here : Units → RedlineChange → ChangeType → Bool
removed_here id ch removed = same_units ch.clause_id id
removed_here id ch _ = false

-- `removed.has(id)`
abbrev pub is_removed : Units → List Decided → Bool
is_removed id [] = false
is_removed id (d ∷ changes) =
    (d.is_accepted && removed_here id d.change d.change.change_type) || is_removed id changes

-- A clause of the new body.
pub record NewClause : Type 0 where
  pub heading : Units
  pub body : Units

abbrev pub added_here : RedlineChange → ChangeType → List NewClause → List NewClause
added_here ch added rest =
    record { heading = ch.clause_heading; body = or_blank ch.their_text } ∷ rest
added_here ch _ rest = rest

-- `added`
abbrev pub added_clauses : List Decided → List NewClause
added_clauses [] = []
added_clauses (d ∷ changes) =
    let rest = added_clauses changes in
    if d.is_accepted then added_here d.change d.change.change_type rest else rest

abbrev pub kept_clause : ClauseSegment → Option Units → NewClause
kept_clause s none = record { heading = s.heading; body = s.body }
kept_clause s (some body) = record { heading = s.heading; body = body }

-- The loop over our segments.
abbrev pub kept_clauses : List Decided → List ClauseSegment → List NewClause
kept_clauses changes [] = []
kept_clauses changes (s ∷ our) =
    let rest = kept_clauses changes our in
    if is_removed s.id changes then rest else kept_clause s (modified_text s.id changes) ∷ rest

-- The clauses of the new body, before they are printed.
unfoldable pub new_clauses : List ClauseSegment → List Decided → List NewClause
new_clauses our changes = kept_clauses changes our ++ added_clauses changes

-- `## heading`, an empty line and the body; without a heading, the body.
abbrev pub print_clause : NewClause → Units
print_clause c =
    trim (
      if blank_units c.heading
      then c.body
      else b'#' ∷ b'#' ∷ 32 ∷ (c.heading ++ (10 ∷ 10 ∷ c.body)))

abbrev pub join_clauses : List Units → Units
join_clauses [] = []
join_clauses (t ∷ []) = t
join_clauses (t ∷ u ∷ ts) = t ++ (10 ∷ 10 ∷ join_clauses (u ∷ ts))

-- `out.filter((x) => x.trim().length > 0)`
abbrev pub drop_blank : List Units → List Units
drop_blank [] = []
drop_blank (t ∷ ts) = let rest = drop_blank ts in if blank_units (trim t) then rest else t ∷ rest

-- `buildNewBody`
unfoldable pub build_new_body : (fold : Units → Units) (our_body : Units) → List Decided → Units
unfolding new_clauses parse_clauses
build_new_body fold our_body changes =
    join_clauses (drop_blank (map print_clause (new_clauses (parse_clauses fold our_body) changes)))
