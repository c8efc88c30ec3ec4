-- ===== src/Migrate/Tests.antt =====
-- src/database/migrate.ts: runs on concrete scripts.
use musanad_contracts_backen.Base.{suc, ◌≡◌, refl, ◌≢◌, true, none, List, [], ◌∷◌, ◌++◌, codes}
use musanad_contracts_backen.Chars.{length, trim_start, has_prefix, trim}
use musanad_contracts_backen.Migrate.Split.{
  tag_rest, plain_move, move, after_line, after_block, strip_comments, first_word,
  is_control_statement, emit, scan, split_statements,
}
use musanad_contracts_backen.Migrate.Split.Pieces.{
  Piece, literal, pair, quoted, line, block, dollar_quoted, render_piece, render, one_line,
  unclosed, escape, avoids,
}
use musanad_contracts_backen.Migrate.Split.Laws.{render_script, emit_all, split-script}
use musanad_contracts_backen.Migrate.Split.Control.{is_control_statement-comments}

-- `BEGIN;`, a statement with a semicolon in a string, in a comment and in a body, and a last one.
abbrev begin_piece : List Piece
begin_piece = literal b'B' ∷ literal b'E' ∷ literal b'G' ∷ literal b'I' ∷ literal b'N' ∷ []

abbrev guarded : List Piece
guarded =
    literal b'X'
    ∷ quoted (b';' ∷ 39 ∷ [])
    ∷ line (b';' ∷ [])
    ∷ block (b';' ∷ b'*' ∷ [])
    ∷ pair b'-' b'1'
    ∷ dollar_quoted (b'q' ∷ []) (b';' ∷ b'$' ∷ [])
    ∷ []

split_tests :
    (split_statements (codes "BEGIN; a 'x;''y'; -- c;\nb; DO $q$ ; $$ $q$; COMMIT;")
      ≡ codes "a 'x;''y'" ∷ codes "-- c;\nb" ∷ codes "DO $q$ ; $$ $q$" ∷ [])
    × (split_statements (render_script (begin_piece ∷ guarded ∷ []) (literal b'z' ∷ []))
        ≡ codes "X';'''--;\n/*;**/-1$q$;$$q$" ∷ codes "z" ∷ [])
unfolding split_statements scan move plain_move tag_rest emit is_control_statement strip_comments
    first_word after_line after_block trim trim_start has_prefix render render_piece escape
split_tests = (refl, refl)

split-script_example :
    split_statements (render_script (begin_piece ∷ guarded ∷ []) (literal b'z' ∷ []))
    ≡ emit_all (begin_piece ∷ guarded ∷ []) (literal b'z' ∷ [])
unfolding avoids has_prefix
split-script_example =
    split-script (begin_piece ∷ guarded ∷ []) (literal b'z' ∷ [])
      ((
        ((refl, refl, (refl, refl, (refl, refl, (refl, refl, (refl, refl, tt)))))),
        (
          (
            refl,
            refl,
            (tt, refl, (refl, refl, (refl, refl, (refl, refl, ((refl, refl), refl, tt))))),
          ),
          tt,
        ),
      ))
      (refl, refl, tt)

is_control_statement-comments_example :
    (strip_comments (suc (length (codes "COMMIT"))) (codes "COMMIT") ≢ none)
    × (one_line (codes " done") ≡ true
        → is_control_statement (b'-' ∷ b'-' ∷ (codes " done" ++ 10 ∷ codes "COMMIT"))
          ≡ is_control_statement (codes "COMMIT"))
    × (unclosed (b'*' ∷ codes " done") ≡ true
        → is_control_statement (b'/' ∷ b'*' ∷ (codes " done" ++ b'*' ∷ b'/' ∷ codes "COMMIT"))
          ≡ is_control_statement (codes "COMMIT"))
is_control_statement-comments_example =
    is_control_statement-comments (codes "COMMIT") (codes " done")
