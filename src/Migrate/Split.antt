-- ===== src/Migrate/Split.antt =====
-- src/database/migrate.ts: `splitStatements` and `isControlStatement`, over code units. The four
-- flags of the loop exclude one another and are one mode. `i += k` is `k` rounds that append the
-- character they stand at: the counter says how many of them are left.
pub mod Pieces
pub mod Contexts
pub mod Laws
pub mod Control
use musanad_contracts_backen.Base.{
  ℕ, zero, suc, ◌+◌, ◌-◌, Bool, true, false, ◌&&◌, ◌||◌, not, Option, none, some, List, [], ◌∷◌,
  ◌++◌, leb, ◌==◌, if◌then◌else◌,
}
use musanad_contracts_backen.Chars.{is_space, trim_start, trim, has_prefix, length}

pub data Mode : Type 0 where
  plain single line_comment block_comment : Mode
  dollar : List ℕ → Mode

-- What one round does with the character it stands at: append it, and `k` more after it, and go
-- on in a mode; or end the statement.
pub data Move : Type 0 where
  keep : Mode → ℕ → Move
  cut : Move

abbrev pub is_letter_or_line : ℕ → Bool
is_letter_or_line c = (leb b'A' c && leb c b'Z') || (leb b'a' c && leb c b'z') || c == b'_'

abbrev pub is_word : ℕ → Bool
is_word c = is_letter_or_line c || (leb b'0' c && leb c b'9')

-- The rest of `/^\$([A-Za-z_][A-Za-z0-9_]*)?\$/` after its first `$`, by its length; `first` while
-- no character of the name is read.
unfoldable pub tag_rest : (first : Bool) → List ℕ → Option ℕ
tag_rest first [] = none
tag_rest first (c ∷ s) =
    let more = tag_rest false s in
    if c == b'$'
    then some 1
    else if (if first then is_letter_or_line c else is_word c)
    then elim more [ none ↦ none | some n ↦ some (suc n) ]
    else none

abbrev pub take : ℕ → List ℕ → List ℕ
take zero s = []
take (suc n) [] = []
take (suc n) (c ∷ s) = c ∷ take n s

abbrev pub next_is : ℕ → List ℕ → Bool
next_is c [] = false
next_is c (d ∷ s) = d == c

-- The transitions outside every context.
unfoldable pub plain_move : ℕ → List ℕ → Move
unfolding tag_rest
plain_move c s =
    if c == b'-' && next_is b'-' s
    then keep line_comment 1
    else if c == b'/' && next_is b'*' s
    then keep block_comment 1
    else if c == 39
    then keep single 0
    else if c == b'$'
    then elim (tag_rest true s) [ none ↦ keep plain 0 | some n ↦ keep (dollar (c ∷ take n s)) n ]
    else if c == b';'
    then cut
    else keep plain 0

unfoldable pub move : Mode → ℕ → List ℕ → Move
unfolding plain_move has_prefix
move plain c s = plain_move c s
move single c s =
    if c == 39 then (if next_is 39 s then keep single 1 else keep plain 0) else keep single 0
move line_comment c s = if c == 10 then keep plain 0 else keep line_comment 0
move block_comment c s = if c == b'*' && next_is b'/' s then keep plain 1 else keep block_comment 0
move (dollar tag) c s =
    if has_prefix tag (c ∷ s) then keep plain (length tag - 1) else keep (dollar tag) 0

-- `s.slice(s.indexOf('\n') + 1)`, empty if there is none; likewise for `*/`.
unfoldable pub after_line : List ℕ → List ℕ
after_line [] = []
after_line (c ∷ s) = let rest = after_line s in if c == 10 then s else rest

unfoldable pub after_block : List ℕ → List ℕ
after_block [] = []
after_block (c ∷ []) = []
after_block (c ∷ d ∷ s) =
    let rest = after_block (d ∷ s) in if c == b'*' && d == b'/' then s else rest

-- The loop of `isControlStatement`, with fuel: each round that goes on drops two characters.
unfoldable pub strip_comments : ℕ → List ℕ → Option (List ℕ)
unfolding trim_start has_prefix after_line after_block
strip_comments zero s = none
strip_comments (suc fuel) s =
    let t = trim_start s in
    let line = strip_comments fuel (after_line t) in
    let block = strip_comments fuel (after_block t) in
    if has_prefix (b'-' ∷ b'-' ∷ []) t
    then line
    else if has_prefix (b'/' ∷ b'*' ∷ []) t
    then block
    else some t

-- The word that `/^[A-Za-z]+/` matches, in upper case.
unfoldable pub first_word : List ℕ → List ℕ
first_word [] = []
first_word (c ∷ s) =
    let rest = first_word s in
    if leb b'A' c && leb c b'Z'
    then c ∷ rest
    else if leb b'a' c && leb c b'z'
    then (c - 32) ∷ rest
    else []

abbrev pub same_text : List ℕ → List ℕ → Bool
same_text [] [] = true
same_text (x ∷ xs) (y ∷ ys) = x == y && same_text xs ys
same_text _ _ = false

abbrev pub control_words : List (List ℕ)
control_words =
    (b'B' ∷ b'E' ∷ b'G' ∷ b'I' ∷ b'N' ∷ [])
    ∷ (b'C' ∷ b'O' ∷ b'M' ∷ b'M' ∷ b'I' ∷ b'T' ∷ [])
    ∷ (b'R' ∷ b'O' ∷ b'L' ∷ b'L' ∷ b'B' ∷ b'A' ∷ b'C' ∷ b'K' ∷ [])
    ∷ []

abbrev pub is_one_of : List (List ℕ) → List ℕ → Bool
is_one_of [] w = false
is_one_of (v ∷ vs) w = same_text v w || is_one_of vs w

abbrev pub is_control_word : Option (List ℕ) → Bool
is_control_word none = false
is_control_word (some s) = is_one_of control_words (first_word s)

unfoldable pub is_control_statement : List ℕ → Bool
unfolding strip_comments first_word
is_control_statement stmt = is_control_word (strip_comments (suc (length stmt)) stmt)

abbrev pub is_blank : List ℕ → Bool
is_blank [] = true
is_blank (c ∷ s) = false

-- `const stmt = buf.trim(); if (stmt.length > 0 && !isControlStatement(stmt)) out.push(stmt);`
unfoldable pub emit : List ℕ → List (List ℕ) → List (List ℕ)
unfolding trim is_control_statement
emit buf out =
    if is_blank (trim buf) || is_control_statement (trim buf) then out else trim buf ∷ out

-- The loop, with what it has in `buf`; the result is what it will push from here on.
unfoldable pub scan : Mode → ℕ → List ℕ → List ℕ → List (List ℕ)
unfolding move emit
scan mode k buf [] = emit buf []
scan mode (suc k) buf (c ∷ s) = scan mode k (buf ++ c ∷ []) s
scan mode zero buf (c ∷ s) = elim (move mode c s) [
  | keep m k ↦ scan m k (buf ++ c ∷ []) s
  | cut ↦ emit buf (scan plain 0 [] s)
]

unfoldable pub split_statements : List ℕ → List (List ℕ)
unfolding scan
split_statements sql = scan plain 0 [] sql
