-- ===== src/Redline/Clauses.antt =====
-- src/services/contract-redline-import.service.ts: a contract as clauses, from `## ` headings or along
-- our headings. Texts are lists of code units.
use musanad_contracts_backen.Base.{
  ℕ, zero, suc, ◌+◌, ◌/◌, ◌%◌, Bool, true, false, ◌&&◌, ◌||◌, Option, none, some, List, [], ◌∷◌,
  ◌++◌, codes, take, ltb, leb, ◌==◌, if◌then◌else◌,
}
use musanad_contracts_backen.Chars.{is_space, trim_start, trim}
use musanad_contracts_backen.Calls.{Units, same_units}
use musanad_contracts_backen.Js.{any}

pub record ClauseSegment : Type 0 where
  pub id : Units
  pub heading : Units
  pub body : Units

abbrev pub blank_units : Units → Bool
blank_units [] = true
blank_units (c ∷ s) = false

-- `String(n)` on fuel; there are fewer digits than `n + 1`.
abbrev pub digits : (fuel : ℕ) → ℕ → Units
digits zero n = []
digits (suc fuel) n =
    let rest = digits fuel (n / 10) in
    if ltb n 10 then (48 + n) ∷ [] else rest ++ ((48 + n % 10) ∷ [])

abbrev pub decimal : ℕ → Units
decimal n = digits (suc n) n

abbrev pub is_slug_char : ℕ → Bool
is_slug_char c = (leb b'a' c && leb c b'z') || (leb b'0' c && leb c b'9')

-- `s.replace(/[^a-z0-9]+/g, with)`; `gap` is whether a run of other characters is open.
abbrev pub squeeze : (mark : ℕ) (gap : Bool) → Units → Units
squeeze mark gap [] = []
squeeze mark gap (c ∷ s) =
    let kept = squeeze mark false s in
    let skipped = squeeze mark true s in
    if is_slug_char c then c ∷ kept else if gap then skipped else mark ∷ skipped

-- `s.replace(/[̀-ͯ]/g, '')`, without the combining marks
abbrev pub without_marks : Units → Units
without_marks [] = []
without_marks (c ∷ s) =
    let rest = without_marks s in if leb 768 c && leb c 879 then rest else c ∷ rest

abbrev pub drop_dashes : Units → Units
drop_dashes [] = []
drop_dashes (c ∷ s) = let rest = drop_dashes s in if c == b'-' then rest else c ∷ s

-- `s.replace(/-+$/, '')`
abbrev pub drop_last_dashes : Units → Units
drop_last_dashes [] = []
drop_last_dashes (c ∷ s) =
    let rest = drop_last_dashes s in if c == b'-' && blank_units rest then [] else c ∷ rest

abbrev pub or_section : Units → Units
or_section [] = codes "section"
or_section (c ∷ s) = c ∷ s

-- `fold` is `s.toLowerCase().normalize('NFKD')`.
unfoldable pub slugify : (fold : Units → Units) → Units → Units
slugify fold s =
    or_section
      (take 60 (drop_last_dashes (drop_dashes (squeeze b'-' false (without_marks (fold s))))))

abbrev push_unit : ℕ → List Units → List Units
push_unit c [] = (c ∷ []) ∷ []
push_unit c (line ∷ lines) = (c ∷ line) ∷ lines

-- A line that ends in `\r` before a `\n` loses it.
abbrev pub break_line : ℕ → Units → List Units → List Units
break_line c s rest = if c == 10 then [] ∷ rest else push_unit c rest

-- `body.split(/\r?\n/)`
unfoldable pub split_lines : Units → List Units
split_lines [] = [] ∷ []
split_lines (c ∷ []) = break_line c [] ([] ∷ [])
split_lines (c ∷ d ∷ s) =
    let rest = split_lines (d ∷ s) in if c == 13 && d == 10 then rest else break_line c (d ∷ s) rest

-- The characters that `.` does not match.
abbrev pub ends_line : ℕ → Bool
ends_line c = c == 10 || c == 13 || c == 8232 || c == 8233

abbrev pub heading_rest : Units → Option Units
heading_rest [] = none
heading_rest (c ∷ s) = if any ends_line (c ∷ s) then none else some (c ∷ s)

-- What stands behind `##`: a blank, and then the heading.
abbrev pub after_marks : Units → Option Units
after_marks [] = none
after_marks (c ∷ s) = if is_space c then heading_rest (trim_start s) else none

-- `/^##\s+(.+)$/` on a trimmed line; `none`: no match.
unfoldable pub heading_of : Units → Option Units
heading_of (c ∷ d ∷ s) = if c == b'#' && d == b'#' then after_marks s else none
heading_of _ = none

-- `seen.get(slug) ?? 0`; the newest entry stands first.
abbrev pub seen_count : Units → List (Units × ℕ) → ℕ
seen_count slug [] = 0
seen_count slug ((k, n) ∷ seen) =
    let rest = seen_count slug seen in if same_units k slug then n else rest

-- `lines.join('\n')`
abbrev pub join_lines : List Units → Units
join_lines [] = []
join_lines (line ∷ []) = line
join_lines (line ∷ next ∷ lines) = line ++ (10 ∷ join_lines (next ∷ lines))

abbrev pub all_blank : List Units → Bool
all_blank [] = true
all_blank (line ∷ lines) = blank_units (trim line) && all_blank lines

-- The variables of `parseClauses`; the lines of the body and the segments stand newest first.
pub record Parsing : Type 0 where
  pub segments : List ClauseSegment
  pub current_heading : Units
  pub current_body : List Units
  pub seen : List (Units × ℕ)

abbrev pub reversed {ℓ} : {A : Type ℓ} → List A → List A → List A
reversed [] ys = ys
reversed (x ∷ xs) ys = reversed xs (x ∷ ys)

module _ (fold : Units → Units) where
  abbrev pub base_slug : Units → Units
  base_slug [] = codes "preamble"
  base_slug (c ∷ heading) = slugify fold (c ∷ heading)

  -- `push`
  unfoldable pub push_segment : Parsing → Parsing
  push_segment p =
      let slug = base_slug p.current_heading in
      let count = seen_count slug p.seen in
      let id = if count == 0 then slug else slug ++ (b'-' ∷ decimal (count + 1)) in
      let segment : ClauseSegment = record {
        id = id;
        heading = p.current_heading;
        body = trim (join_lines (reversed p.current_body []));
      } in
      if blank_units p.current_heading && all_blank p.current_body
      then p
      else record p { segments = segment ∷ p.segments; seen = (slug, count + 1) ∷ p.seen }

  abbrev pub take_line : Units → Option Units → Parsing → Parsing
  take_line line (some heading) p = record (push_segment p) {
    current_heading = heading;
    current_body = [];
  }
  take_line line none p = record p { current_body = line ∷ p.current_body }

  abbrev pub take_lines : List Units → Parsing → Parsing
  take_lines [] p = push_segment p
  take_lines (line ∷ lines) p = take_lines lines (take_line line (heading_of (trim line)) p)

  -- `parseClauses`; a body that is null is empty.
  unfoldable pub parse_clauses : Units → List ClauseSegment
  unfolding push_segment heading_of split_lines
  parse_clauses [] = []
  parse_clauses (c ∷ s) =
      let start : Parsing = record {
        segments = [];
        current_heading = [];
        current_body = [];
        seen = [];
      } in
      reversed (take_lines (split_lines (c ∷ s)) start).segments []
