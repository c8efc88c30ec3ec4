-- ===== src/Migrate/Split/Pieces.antt =====
-- src/database/migrate.ts, `splitStatements`: the texts that a migration is written in, as pieces
-- that the splitter must not cut, and how each is written.
use musanad_contracts_backen.Base.{
  ℕ, ◌≡◌, Bool, true, false, not, ◌&&◌, ◌||◌, List, [], ◌∷◌, ◌++◌, ◌==◌, if◌then◌else◌,
}
use musanad_contracts_backen.Chars.{has_prefix}
use musanad_contracts_backen.Migrate.Split.{is_letter_or_line, is_word}

pub data Piece : Type 0 where
  literal : ℕ → Piece  -- a character that opens nothing
  pair : ℕ → ℕ → Piece  -- a `-`, `/` or `$` with a character that makes it open nothing
  quoted : List ℕ → Piece  -- a string, by its value
  line : List ℕ → Piece  -- a comment to the end of the line
  block : List ℕ → Piece  -- a comment between `/*` and `*/`
  dollar_quoted : (name body : List ℕ) → Piece  -- a body between two `$name$`

-- A character that has no meaning of its own outside every context.
abbrev pub calm : ℕ → Bool
calm c = not (c == 39 || c == b'$' || c == b';' || c == b'-' || c == b'/')

abbrev pub opens_nothing : ℕ → ℕ → Bool
opens_nothing c d =
    calm d
    && (c == b'-' || (c == b'/' && not (d == b'*')) || (c == b'$' && not (is_letter_or_line d)))

-- The rest of a string literal: quotes are doubled.
unfoldable pub escape : List ℕ → List ℕ
escape [] = 39 ∷ []
escape (c ∷ s) = let rest = escape s in if c == 39 then 39 ∷ 39 ∷ rest else c ∷ rest

abbrev pub delimiter : List ℕ → List ℕ
delimiter name = b'$' ∷ (name ++ b'$' ∷ [])

unfoldable pub render_piece : Piece → List ℕ
unfolding escape
render_piece (literal c) = c ∷ []
render_piece (pair c d) = c ∷ d ∷ []
render_piece (quoted s) = 39 ∷ escape s
render_piece (line s) = b'-' ∷ b'-' ∷ (s ++ 10 ∷ [])
render_piece (block s) = b'/' ∷ b'*' ∷ (s ++ b'*' ∷ b'/' ∷ [])
render_piece (dollar_quoted name body) = delimiter name ++ (body ++ delimiter name)

unfoldable pub render : List Piece → List ℕ
unfolding render_piece
render [] = []
render (p ∷ ps) = render_piece p ++ render ps

-- No line end in the text.
abbrev pub one_line : List ℕ → Bool
one_line [] = true
one_line (c ∷ s) = if c == 10 then false else one_line s

-- No `*/` in the text.
abbrev pub starts_slash : List ℕ → Bool
starts_slash [] = false
starts_slash (c ∷ s) = c == b'/'

abbrev pub unclosed : List ℕ → Bool
unclosed [] = true
unclosed (c ∷ s) = if c == b'*' && starts_slash s then false else unclosed s

abbrev pub all_words : List ℕ → Bool
all_words [] = true
all_words (c ∷ s) = if is_word c then all_words s else false

-- A name between dollar signs: empty, or letters, digits and `_`, the first of them no digit.
abbrev pub is_name : List ℕ → Bool
is_name [] = true
is_name (c ∷ s) = is_letter_or_line c && all_words s

-- The delimiter stands nowhere in the body, nor across its end.
unfoldable pub avoids : List ℕ → List ℕ → Bool
unfolding has_prefix
avoids delim [] = true
avoids delim (c ∷ s) =
    let rest = avoids delim s in if has_prefix delim (c ∷ (s ++ delim)) then false else rest

abbrev pub IsPiece : Piece → Type 0
IsPiece (literal c) = calm c ≡ true
IsPiece (pair c d) = opens_nothing c d ≡ true
IsPiece (quoted s) = Unit {0}
IsPiece (line s) = one_line s ≡ true
IsPiece (block s) = unclosed s ≡ true
IsPiece (dollar_quoted name body) = (is_name name ≡ true) × (avoids (delimiter name) body ≡ true)

abbrev pub opens_quote : List Piece → Bool
opens_quote (quoted s ∷ ps) = true
opens_quote _ = false

abbrev pub is_quoted : Piece → Bool
is_quoted (quoted s) = true
is_quoted _ = false

-- A statement: pieces, no string directly after another.
abbrev pub IsStatement : List Piece → Type 0
IsStatement [] = Unit {0}
IsStatement (p ∷ ps) = IsPiece p × ((is_quoted p && opens_quote ps) ≡ false) × IsStatement ps
