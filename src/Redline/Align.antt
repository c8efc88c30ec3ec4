-- ===== src/Redline/Align.antt =====
-- src/services/contract-redline-import.service.ts: the counterparty's text cut along our headings, where
-- it has lost the marks of its own.
use musanad_contracts_backen.Base.{
  ℕ, zero, suc, ◌+◌, ◌-◌, Bool, false, not, ◌&&◌, ◌||◌, Option, none, some, List, [], ◌∷◌, ◌++◌,
  map, take, length, ltb, leb, ◌==◌, if◌then◌else◌,
}
use musanad_contracts_backen.Chars.{trim, has_prefix}
use musanad_contracts_backen.Calls.{Units, same_units}
use musanad_contracts_backen.Redline.Clauses.{
  ClauseSegment, blank_units, squeeze, split_lines, join_lines, parse_clauses,
}

-- A line on which one of our headings stands.
pub record Anchor : Type 0 where
  pub line : ℕ
  pub segment : ClauseSegment

-- `lower` is `toLowerCase`, and `fold` that and `normalize('NFKD')`.
module _ (fold lower : Units → Units) where
  -- `headingKey`; `lower` is `toLowerCase`.
  unfoldable pub heading_key : Units → Units
  heading_key h = trim (squeeze 32 false (lower h))

  abbrev pub is_used : ℕ → List Anchor → Bool
  is_used i [] = false
  is_used i (a ∷ anchors) = a.line == i || is_used i anchors

  -- `k === target || k.startsWith(target + ' ')`
  abbrev pub key_matches : Units → Units → Bool
  key_matches target key =
      not (blank_units key) && (same_units key target || has_prefix (target ++ (32 ∷ [])) key)

  -- `lineKeys.findIndex(…)`, from the line `i` on.
  abbrev pub find_line : Units → List Anchor → ℕ → List Units → Option ℕ
  find_line target used i [] = none
  find_line target used i (key ∷ keys) =
      let rest = find_line target used (i + 1) keys in
      if not (is_used i used) && key_matches target key then some i else rest

  abbrev pub add_anchor : ClauseSegment → Option ℕ → List Anchor → List Anchor
  add_anchor s none anchors = anchors
  add_anchor s (some i) anchors = record { line = i; segment = s } ∷ anchors

  -- The loop over our sections; the newest anchor stands first.
  abbrev pub find_anchors : List Units → List ClauseSegment → List Anchor → List Anchor
  find_anchors keys [] anchors = anchors
  find_anchors keys (s ∷ our) anchors =
      let target = heading_key s.heading in
      find_anchors keys our (
        if blank_units s.heading || ltb (length target) 4
        then anchors
        else add_anchor s (find_line target anchors 0 keys) anchors)

  -- `anchors.sort((a, b) => a.idx - b.idx)`
  abbrev pub insert_anchor : Anchor → List Anchor → List Anchor
  insert_anchor a [] = a ∷ []
  insert_anchor a (b ∷ anchors) =
      let rest = insert_anchor a anchors in if ltb a.line b.line then a ∷ b ∷ anchors else b ∷ rest

  abbrev pub sort_anchors : List Anchor → List Anchor
  sort_anchors [] = []
  sort_anchors (a ∷ anchors) = insert_anchor a (sort_anchors anchors)

  abbrev pub drop_lines : ℕ → List Units → List Units
  drop_lines zero lines = lines
  drop_lines (suc n) [] = []
  drop_lines (suc n) (line ∷ lines) = drop_lines n lines

  -- `lines.slice(start, end)`
  abbrev pub slice_lines : (start end : ℕ) → List Units → List Units
  slice_lines start end lines = take (end - start) (drop_lines start lines)

  abbrev pub end_of : List Units → List Anchor → ℕ
  end_of lines [] = length lines
  end_of lines (b ∷ anchors) = b.line

  abbrev pub cut_at : List Units → List Anchor → List ClauseSegment
  cut_at lines [] = []
  cut_at lines (a ∷ anchors) =
      record {
        id = a.segment.id;
        heading = a.segment.heading;
        body = trim (join_lines (slice_lines (a.line + 1) (end_of lines anchors) lines));
      }
      ∷ cut_at lines anchors

  -- `alignByOurHeadings`
  unfoldable pub align_by_our_headings : Units → List ClauseSegment → List ClauseSegment
  unfolding heading_key split_lines
  align_by_our_headings their_text our =
      let lines = split_lines their_text in
      cut_at lines (sort_anchors (find_anchors (map heading_key lines) our []))

  abbrev pub headed : List ClauseSegment → ℕ
  headed [] = 0
  headed (s ∷ segments) =
      let rest = headed segments in if blank_units s.heading then rest else suc rest

  -- `parseTheirs`
  unfoldable pub parse_theirs : Units → List ClauseSegment → List ClauseSegment
  unfolding align_by_our_headings
  parse_theirs their_text our =
      let md = parse_clauses fold their_text in
      if leb 2 (headed md) then md else align_by_our_headings their_text our
