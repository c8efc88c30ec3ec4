-- ===== src/Redline/Diff/Laws/Merge.antt =====
-- src/services/contract-redline-import.service.ts: a diff of which every change is accepted.
use mathlib.Core.List.{append-nil}
use musanad_contracts_backen.Base.{◌≡◌, ap, ◌∙◌, ◌||◌, some, List, [], ◌++◌}
use musanad_contracts_backen.Js.Laws.{All-weaken}
use musanad_contracts_backen.Redline.Clauses.{ClauseSegment}
use musanad_contracts_backen.Redline.Diff.{
  last_or, by_id, their_changes, our_removals, diff_segments, modified_text, is_removed,
  added_clauses, new_clauses,
}
use musanad_contracts_backen.Redline.Diff.Laws.{
  IsDistinct, by_id-own, keep_by, kept_clauses-keep_by,
}
use musanad_contracts_backen.Redline.Diff.Laws.Accepted.{
  accept_all, modified_text_append, is_removed_append, added_clauses_append, merged_text,
  is_dropped, new_of,
}
use musanad_contracts_backen.Redline.Diff.Laws.Theirs.{
  their_changes-modified, their_changes-keeps, their_changes-adds,
}
use musanad_contracts_backen.Redline.Diff.Laws.Ours.{
  our_removals-only, dropped_in, our_removals-removes,
}

accepted_lem :
    (our their : List ClauseSegment) (s : ClauseSegment)
    → IsDistinct our
    → IsDistinct their
    → by_id s.id our ≡ some s
    → (is_removed s.id (accept_all (diff_segments our their)) ≡ is_dropped their s)
      × (modified_text s.id (accept_all (diff_segments our their)) ≡ merged_text our their s.id)
unfolding diff_segments
accepted_lem our their s ho ht own = (
  is_removed_append s.id (their_changes our their) (our_removals their our)
      ∙ ap (λ b. b || is_removed s.id (accept_all (our_removals their our)))
          (their_changes-keeps s.id our their)
      ∙ our_removals-removes s.id their our ho
      ∙ ap (dropped_in their s.id) own,
  modified_text_append s.id (their_changes our their) (our_removals their our)
      ∙ ap (λ o. last_or o (modified_text s.id (accept_all (their_changes our their))))
          (our_removals-only s.id their our).0
      ∙ their_changes-modified s.id our their ht,
)

diff_adds :
    (our their : List ClauseSegment)
    → added_clauses (accept_all (diff_segments our their)) ≡ new_of our their
unfolding diff_segments
diff_adds our their =
    added_clauses_append (their_changes our their) (our_removals their our)
    ∙ ap (λ cs. added_clauses (accept_all (their_changes our their)) ++ cs)
        (our_removals-only [] their our).1
    ∙ append-nil (added_clauses (accept_all (their_changes our their)))
    ∙ their_changes-adds our their

-- A diff of which every change is accepted makes of our clauses the merge with theirs, where the ids on
-- each side differ: our clauses in their order, without those with a heading that theirs lack, with the
-- text of theirs where it is not blank and differs in more than blanks; and behind them, in their
-- order, the clauses with a heading that only theirs have.
pub new_clauses-accepted :
    (our their : List ClauseSegment)
    → IsDistinct our
    → IsDistinct their
    → new_clauses our (accept_all (diff_segments our their))
      ≡ keep_by (is_dropped their) (λ s. merged_text our their s.id) our ++ new_of our their
unfolding new_clauses
new_clauses-accepted our their ho ht =
    ap (λ cs. cs ++ added_clauses (accept_all (diff_segments our their)))
      (kept_clauses-keep_by (accept_all (diff_segments our their)) (is_dropped their)
        (λ s. merged_text our their s.id) our
        (All-weaken our (λ s own. accepted_lem our their s ho ht own) (by_id-own our ho)))
    ∙ ap (λ cs. keep_by (is_dropped their) (λ s. merged_text our their s.id) our ++ cs)
        (diff_adds our their)
