-- ===== src/Migrate/Markers.antt =====
-- src/database/migrate.ts: `findMarker`, `extractRollbackSql` and `stripRollbackSection`, over code
-- units.
pub mod Laws
use musanad_contracts_backen.Base.{
  ℕ, zero, suc, ◌+◌, ◌-◌, Bool, true, false, ◌&&◌, ◌||◌, Option, none, some, List, [], ◌∷◌, ◌==◌,
  leb, codes, if◌then◌else◌,
}
use musanad_contracts_backen.Chars.{trim, length}
use musanad_contracts_backen.Migrate.Split.{take}

abbrev pub is_blank_char : ℕ → Bool
is_blank_char c = c == 32 || c == 9

-- `[ \t]*`
unfoldable pub skip_blanks : List ℕ → List ℕ
skip_blanks [] = []
skip_blanks (c ∷ s) = let rest = skip_blanks s in if is_blank_char c then rest else c ∷ s

-- What follows a text, if another starts with it.
unfoldable pub after_prefix : List ℕ → List ℕ → Option (List ℕ)
after_prefix [] s = some s
after_prefix (p ∷ ps) [] = none
after_prefix (p ∷ ps) (c ∷ s) = let rest = after_prefix ps s in if c == p then rest else none

-- `(\r?\n|$)`
abbrev pub at_line_end : List ℕ → Bool
at_line_end [] = true
at_line_end (c ∷ []) = c == 10
at_line_end (c ∷ d ∷ s) = c == 10 || (c == 13 && d == 10)

abbrev pub ends_after : Option (List ℕ) → Bool
ends_after none = false
ends_after (some s) = at_line_end (skip_blanks s)

-- The marker stands alone on the line that starts here. Neither marker starts with a blank.
unfoldable pub is_marker_line : (marker : List ℕ) → List ℕ → Bool
unfolding skip_blanks after_prefix
is_marker_line marker s = ends_after (after_prefix marker (skip_blanks s))

abbrev pub later : Option ℕ → Option ℕ
later none = none
later (some i) = some (suc i)

-- The search from one place on, which starts a line or not; `none` is -1.
unfoldable pub find_from : (starts_line : Bool) (marker : List ℕ) → List ℕ → Option ℕ
unfolding is_marker_line
find_from starts_line marker [] = none
find_from starts_line marker (c ∷ s) =
    let rest = later (find_from (c == 10) marker s) in
    if starts_line && is_marker_line marker (c ∷ s) then some 0 else rest

unfoldable pub find_marker : List ℕ → (marker : List ℕ) → Option ℕ
unfolding find_from
find_marker sql marker = find_from true marker sql

abbrev pub begin_marker : List ℕ
begin_marker = codes "-- ROLLBACK BEGIN"

abbrev pub end_marker : List ℕ
end_marker = codes "-- ROLLBACK END"

abbrev pub drop : ℕ → List ℕ → List ℕ
drop zero s = s
drop (suc n) [] = []
drop (suc n) (c ∷ s) = drop n s

-- `sql.slice(a, b)`
abbrev pub slice : ℕ → ℕ → List ℕ → List ℕ
slice a b s = take (b - a) (drop a s)

abbrev pub between : List ℕ → Option ℕ → Option ℕ → Option (List ℕ)
between sql none stop = none
between sql (some start) none = none
between sql (some start) (some stop) =
    if leb stop start then none else some (trim (slice (start + length begin_marker) stop sql))

unfoldable pub extract_rollback_sql : List ℕ → Option (List ℕ)
unfolding find_marker trim
extract_rollback_sql sql = between sql (find_marker sql begin_marker) (find_marker sql end_marker)

abbrev pub until : List ℕ → Option ℕ → List ℕ
until sql none = sql
until sql (some i) = take i sql

unfoldable pub strip_rollback_section : List ℕ → List ℕ
unfolding find_marker
strip_rollback_section sql = until sql (find_marker sql begin_marker)
