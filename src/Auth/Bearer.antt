-- ===== src/Auth/Bearer.antt =====
-- src/middleware/auth.middleware.ts: `extractBearer`, over the code units of the header.
pub mod Laws
use musanad_contracts_backen.Base.{
  ℕ, suc, Bool, true, false, ◌&&◌, ◌||◌, Option, none, some, List, [], ◌∷◌, leb, ◌==◌, ltb,
  if◌then◌else◌, ◌+◌,
}
use musanad_contracts_backen.Chars.{is_space, lower, trim}

-- The characters that `.` does not match.
abbrev pub is_line_end : ℕ → Bool
is_line_end c = c == 10 || c == 13 || c == 8232 || c == 8233

-- What follows a word of letters, compared without regard to case.
unfoldable pub after_word : List ℕ → List ℕ → Option (List ℕ)
after_word [] s = some s
after_word (w ∷ ws) [] = none
after_word (w ∷ ws) (c ∷ s) = let rest = after_word ws s in if lower c == w then rest else none

abbrev pub has_line_end : List ℕ → Bool
has_line_end [] = false
has_line_end (c ∷ s) = is_line_end c || has_line_end s

-- `(.+)$` where `\s+` has taken one space at least: all from the first character that is no space
-- or, if there is none, the last space, which `\s+` gives back.
unfoldable pub token_part : List ℕ → Option (List ℕ)
token_part [] = none
token_part (c ∷ s) =
    let later = token_part s in
    if is_space c
    then elim s [ [] ↦ if is_line_end c then none else some (c ∷ []) | d ∷ t ↦ later ]
    else if has_line_end (c ∷ s)
    then none
    else some (c ∷ s)

abbrev pub bearer : List ℕ
bearer = b'b' ∷ b'e' ∷ b'a' ∷ b'r' ∷ b'e' ∷ b'r' ∷ []

abbrev pub trimmed : Option (List ℕ) → Option (List ℕ)
trimmed none = none
trimmed (some t) = some (trim t)

unfoldable pub after_scheme : Option (List ℕ) → Option (List ℕ)
unfolding token_part trim
after_scheme none = none
after_scheme (some []) = none
after_scheme (some (c ∷ s)) = if is_space c then trimmed (token_part s) else none

-- A header that is absent, or given more than once, is `none`.
unfoldable pub extract_bearer : Option (List ℕ) → Option (List ℕ)
unfolding after_word after_scheme
extract_bearer none = none
extract_bearer (some header) = after_scheme (after_word bearer header)
