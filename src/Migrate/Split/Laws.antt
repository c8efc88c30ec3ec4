-- ===== src/Migrate/Split/Laws.antt =====
-- src/database/migrate.ts, `splitStatements`: no statement is cut inside a string, a comment or a
-- dollar-quoted body.
use musanad_contracts_backen.Base.{
  ℕ, ◌≡◌, refl, sym, ap, ◌∙◌, inl, inr, true, false, ◌&&◌, List, [], ◌∷◌, ◌++◌, arith, Bool-cases,
}
use musanad_contracts_backen.Migrate.Split.{
  plain, single, line_comment, block_comment, dollar, keep, tag_rest, next_is, plain_move, move,
  emit, scan, split_statements,
}
use musanad_contracts_backen.Migrate.Split.Pieces.{
  Piece, literal, pair, quoted, line, block, dollar_quoted, calm, opens_nothing, escape, delimiter,
  render_piece, render, IsPiece, opens_quote, is_quoted, IsStatement,
}
use musanad_contracts_backen.Migrate.Split.Contexts.{
  ++_assoc, ++_nil, Takes, Takes-one, Takes-two, Takes-nil, Takes-append, escape-Takes, line-Takes,
  block-Takes, body-Takes, open-Takes,
}

-- Outside every context.
calm-move : (c : ℕ) (s : List ℕ) → calm c ≡ true → move plain c s ≡ keep plain 0
unfolding move plain_move
calm-move c s h = ground arith

opens-move : (c d : ℕ) (s : List ℕ) → opens_nothing c d ≡ true → move plain c (d ∷ s) ≡ keep plain 0
unfolding move plain_move tag_rest
opens-move c d s h = ground arith

-- Each piece is passed whole, and the loop is outside every context again.
piece-Takes :
    (p : Piece) (rest : List ℕ)
    → IsPiece p
    → (is_quoted p && next_is 39 rest) ≡ false
    → Takes plain (render_piece p) rest plain
unfolding render_piece move plain_move
piece-Takes (literal c) rest h k =
    Takes-one plain plain c [] rest plain (calm-move c rest h) (Takes-nil plain rest)
piece-Takes (pair c d) rest h k =
    Takes-one plain plain c (d ∷ []) rest plain (opens-move c d rest h) (
      Takes-one plain plain d [] rest plain (calm-move d rest (ground arith))
        (Takes-nil plain rest))
piece-Takes (quoted s) rest h k =
    Takes-one plain single 39 (escape s) rest plain refl (escape-Takes s rest k)
piece-Takes (line s) rest h k =
    Takes-two plain line_comment b'-' b'-' (s ++ 10 ∷ []) rest plain refl (line-Takes s rest h)
piece-Takes (block s) rest h k =
    Takes-two plain block_comment b'/' b'*' (s ++ b'*' ∷ b'/' ∷ []) rest plain refl
      (block-Takes s rest h)
piece-Takes (dollar_quoted name body) rest (h, a) k =
    Takes-append plain (dollar (delimiter name)) plain (delimiter name) (body ++ delimiter name)
      rest (open-Takes name ((body ++ delimiter name) ++ rest) h)
      (body-Takes b'$' (name ++ b'$' ∷ []) body rest a)

next_is-piece :
    (p : Piece) (s : List ℕ)
    → IsPiece p
    → is_quoted p ≡ false
    → next_is 39 (render_piece p ++ s) ≡ false
unfolding render_piece
next_is-piece (literal c) s h k = ground arith
next_is-piece (pair c d) s h k = ground arith
next_is-piece (quoted t) s h k = absurd (cc)
next_is-piece (line t) s h k = refl
next_is-piece (block t) s h k = refl
next_is-piece (dollar_quoted name body) s h k = refl

next_is-render :
    (ps : List Piece) (rest : List ℕ)
    → IsStatement ps
    → opens_quote ps ≡ false
    → next_is 39 rest ≡ false
    → next_is 39 (render ps ++ rest) ≡ false
unfolding render
next_is-render [] rest h k r = r
next_is-render (p ∷ ps) rest h k r =
    ap (next_is 39) (++_assoc (render_piece p) (render ps) rest)
    ∙ next_is-piece p (render ps ++ rest) h.0 (ground arith)

-- A statement is passed whole.
statement-Takes :
    (ps : List Piece) (rest : List ℕ)
    → IsStatement ps
    → next_is 39 rest ≡ false
    → Takes plain (render ps) rest plain
unfolding render
statement-Takes [] rest h r = Takes-nil plain rest
statement-Takes (p ∷ ps) rest (h, q, k) r =
    Takes-append plain plain plain (render_piece p) (render ps) rest
      (piece-Takes p (render ps ++ rest) h (elim (Bool-cases (is_quoted p)) [
        | inr e ↦ rw e
        | inl e ↦ rw e (next_is-render ps rest k (rw e at q) r)
      ]))
      (statement-Takes ps rest k r)

-- A script: statements that end with a semicolon, and a last one that does not.
abbrev pub render_script : List (List Piece) → List Piece → List ℕ
render_script [] last = render last
render_script (s ∷ ss) last = render s ++ b';' ∷ render_script ss last

abbrev pub AllStatements : List (List Piece) → Type 0
AllStatements [] = Unit {0}
AllStatements (s ∷ ss) = IsStatement s × AllStatements ss

-- Each text, as `splitStatements` keeps or drops a whole statement.
abbrev pub emit_all : List (List Piece) → List Piece → List (List ℕ)
emit_all [] last = emit (render last) []
emit_all (s ∷ ss) last = emit (render s) (emit_all ss last)

cut-scan : (buf s : List ℕ) → scan plain 0 buf (b';' ∷ s) ≡ emit buf (scan plain 0 [] s)
unfolding scan move plain_move
cut-scan buf s = refl

scan-script :
    (ss : List (List Piece)) (last : List Piece)
    → AllStatements ss
    → IsStatement last
    → scan plain 0 [] (render_script ss last) ≡ emit_all ss last
unfolding scan
scan-script [] last h k =
    ap (scan plain 0 []) (sym (++_nil (render last))) ∙ statement-Takes last [] k refl []
scan-script (s ∷ ss) last (h, hs) k =
    statement-Takes s (b';' ∷ render_script ss last) h refl []
    ∙ cut-scan (render s) (render_script ss last)
    ∙ ap (emit (render s)) (scan-script ss last hs k)

-- A script is split into its statements: a semicolon inside a string, a comment of either kind or a
-- dollar-quoted body cuts nothing, one between two statements always does, and each statement is
-- pushed, trimmed, unless it is blank or controls a transaction.
pub split-script :
    (ss : List (List Piece)) (last : List Piece)
    → AllStatements ss
    → IsStatement last
    → split_statements (render_script ss last) ≡ emit_all ss last
unfolding split_statements
split-script ss last h k = scan-script ss last h k
