-- ===== src/Redline/Tests.antt =====
-- src/services/contract-redline-import.service.ts: runs on concrete values.
use musanad_contracts_backen.Base.{◌≡◌, refl, List, [], ◌∷◌, ◌++◌, map, codes}
use musanad_contracts_backen.Chars.{lower, trim, trim_start, has_prefix}
use musanad_contracts_backen.Calls.{Units}
use musanad_contracts_backen.Redline.Clauses.{
  ClauseSegment, slugify, split_lines, heading_of, push_segment, parse_clauses,
}
use musanad_contracts_backen.Redline.Diff.{normalize, diff_segments, new_clauses, build_new_body}
use musanad_contracts_backen.Redline.Align.{heading_key, align_by_our_headings, parse_theirs}
use musanad_contracts_backen.Redline.Diff.Laws.{keep_by}
use musanad_contracts_backen.Redline.Diff.Laws.Accepted.{
  accept_all, merged_text, is_dropped, new_of,
}
use musanad_contracts_backen.Redline.Diff.Laws.Merge.{new_clauses-accepted}

-- Lower case of texts in ASCII.
abbrev ascii_lower : Units → Units
ascii_lower s = map lower s

abbrev clause : Units → Units → Units → ClauseSegment
clause id heading body = record { id = id; heading = heading; body = body }

abbrev our_clauses : List ClauseSegment
our_clauses =
    clause (codes "scope") (codes "Scope") (codes "All works.")
    ∷ clause (codes "notices") (codes "Notices") (codes "By mail.")
    ∷ []

abbrev their_clauses : List ClauseSegment
their_clauses =
    clause (codes "scope") (codes "Scope") (codes "Some works.")
    ∷ clause (codes "law") (codes "Law") (codes "English.")
    ∷ []

-- The second of two equal headings is numbered, and then shares its id with a heading that ends in 2.
shared_ids :
    map (λ s. s.id) (parse_clauses ascii_lower (codes "## Fee\nx\n## Fee\ny\n## Fee 2\nz"))
    ≡ codes "fee" ∷ codes "fee-2" ∷ codes "fee-2" ∷ []
unfolding parse_clauses split_lines heading_of push_segment slugify trim trim_start
shared_ids = refl

-- A text without marks is cut along our headings.
aligned_test :
    map
      (λ s. s.body)
      (parse_theirs ascii_lower ascii_lower
        (codes "Scope\r\nSome works.\nNotices\nBy mail.")
        our_clauses)
    ≡ codes "Some works." ∷ codes "By mail." ∷ []
unfolding parse_theirs align_by_our_headings heading_key parse_clauses split_lines heading_of
    push_segment slugify trim trim_start has_prefix
aligned_test = refl

merged_body_test :
    build_new_body ascii_lower
      (codes "## Scope\nAll works.\n## Notices\nBy mail.")
      (accept_all (diff_segments our_clauses their_clauses))
    ≡ codes "## Scope\n\nSome works.\n\n## Law\n\nEnglish."
unfolding build_new_body new_clauses diff_segments normalize parse_clauses split_lines heading_of
    push_segment slugify trim trim_start
merged_body_test = refl

new_clauses-accepted_example :
    new_clauses our_clauses (accept_all (diff_segments our_clauses their_clauses))
    ≡ keep_by
        (is_dropped their_clauses)
        (λ s. merged_text our_clauses their_clauses s.id)
        our_clauses
      ++ new_of our_clauses their_clauses
new_clauses-accepted_example =
    new_clauses-accepted our_clauses their_clauses ((refl, tt), (tt, tt)) ((refl, tt), (tt, tt))
