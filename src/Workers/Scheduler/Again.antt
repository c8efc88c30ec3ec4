-- ===== src/Workers/Scheduler/Again.antt =====
-- src/services/report-scheduler.service.ts: a second scan of the same templates does nothing.
use musanad_contracts_backen.Base.{
  ℕ, ◌≡◌, refl, ap, ◌∙◌, inl, inr, String, Bool, true, false, Option, none, some, List, [], ◌∷◌,
  map, arith, =s_iff, ◌==◌, Bool-cases,
}
use musanad_contracts_backen.Js.Laws.{All}
use musanad_contracts_backen.Workers.Scheduler.{
  ReportKind, pdf, excel, both, same_kind, ScheduledTemplate, ScheduledEntry, Entries, Scheduler,
  get, Job, entry_of, includes_id, scheduled_jobs, unchanged, register_found, register,
  remove_unseen, refresh_jobs, listed, data_or_nil, refresh_schedules,
}
use musanad_contracts_backen.Workers.Scheduler.Laws.{last_entry, last_entry-unseen, get-refresh}

-- No id stands twice among the templates.
abbrev pub Distinct : List Job → Type 0
Distinct [] = Unit {0}
Distinct (j ∷ js) = (includes_id (map (λ k. k.id) js) j.id ≡ false) × Distinct js

same_kind_refl : (k : ReportKind) → same_kind k k ≡ true
same_kind_refl pdf = refl
same_kind_refl excel = refl
same_kind_refl both = refl

unchanged-entry_of : (j : Job) → unchanged (entry_of j) j ≡ true
unchanged-entry_of j = rw ((=s_iff j.cron j.cron).1 refl, same_kind_refl j.report_kind) refl

-- The templates are registered as they are.
abbrev IsCurrent : Scheduler → Job → Type 0
IsCurrent s j = get j.id s.entries ≡ some (entry_of j)

found_same : (j : Job) (s : Scheduler) → register_found j s (some (entry_of j)) ≡ s
found_same j s = rw (unchanged-entry_of j) refl

register_same : (js : List Job) (s : Scheduler) → All (IsCurrent s) js → register js s ≡ s
unfolding register
register_same [] s h = refl
register_same (j ∷ js) s (e, h) =
    ap (λ o. register js (register_found j s o)) e
    ∙ ap (register js) (found_same j s)
    ∙ register_same js s h

last_entry_absent :
    (k : ℕ) (js : List Job) (o : Option ScheduledEntry)
    → includes_id (map (λ j. j.id) js) k ≡ false
    → last_entry k js o ≡ o
last_entry_absent k [] o h = refl
last_entry_absent k (j ∷ js) o h = elim (Bool-cases (j.id == k)) [
  | inl e ↦ absurd (cc (rw e at h))
  | inr e ↦ rw e (last_entry_absent k js o (rw e at h))
]

==_refl : (n : ℕ) → (n == n) ≡ true
==_refl n = ground arith

abbrev IsLast : List Job → Job → Type 0
IsLast js k = (o : Option ScheduledEntry) → last_entry k.id js o ≡ some (entry_of k)

later-IsLast : (j : Job) (js ks : List Job) → All (IsLast js) ks → All (IsLast (j ∷ js)) ks
later-IsLast j js [] h = tt
later-IsLast j js (k ∷ ks) (e, h) = (λ o. e _, later-IsLast j js ks h)

All-IsLast : (js : List Job) → Distinct js → All (IsLast js) js
All-IsLast [] d = tt
All-IsLast (j ∷ js) (a, d) = (
  λ o. rw (==_refl j.id) (last_entry_absent j.id js (some (entry_of j)) a),
  later-IsLast j js js (All-IsLast js d),
)

refresh_jobs-IsCurrent :
    (js ks : List Job) (s : Scheduler) → All (IsLast js) ks → All (IsCurrent (refresh_jobs js s)) ks
refresh_jobs-IsCurrent js [] s h = tt
refresh_jobs-IsCurrent js (k ∷ ks) s (e, h) =
    (get-refresh k.id js s ∙ e none, refresh_jobs-IsCurrent js ks s h)

-- A loop over entries that are all seen changes nothing.
remove_none :
    (seen : List ℕ) (es : Entries) (s : Scheduler)
    → ((k : ℕ) → includes_id seen k ≡ false → get k es ≡ none)
    → remove_unseen seen es s ≡ s
unfolding remove_unseen get
remove_none seen [] s h = refl
remove_none seen ((j, e) ∷ es) s h = elim (Bool-cases (includes_id seen j)) [
  | inl y ↦ rw (remove_unseen, y) (remove_none seen es s (λ k n. ground (arith, h k n)))
  | inr n ↦ absurd (ground (arith, h j n))
]

refresh_jobs_again :
    (js : List Job) (s : Scheduler)
    → Distinct js
    → refresh_jobs js (refresh_jobs js s) ≡ refresh_jobs js s
refresh_jobs_again js s d =
    let s' : Scheduler = refresh_jobs js s in
    let same' : register js s' ≡ s' =
      register_same js s' (refresh_jobs-IsCurrent js js s (All-IsLast js d)) in
    ap (λ r. remove_unseen (map (λ j. j.id) js) r.entries r) same'
    ∙ remove_none (map (λ j. j.id) js) s'.entries s'
        (λ k n. get-refresh k js s ∙ last_entry-unseen k js n)

-- A scan is idempotent where no id stands twice among the templates: a second scan that gets the
-- same list starts and stops no task and leaves the map as it is.
pub refresh_again :
    (validate is_blank : String → Bool) (data' : Option (List ScheduledTemplate)) (s : Scheduler)
    → Distinct (scheduled_jobs validate is_blank (data_or_nil data'))
    → refresh_schedules validate is_blank
        (listed data')
        (refresh_schedules validate is_blank (listed data') s)
      ≡ refresh_schedules validate is_blank (listed data') s
unfolding refresh_schedules
refresh_again validate is_blank data' s d =
    refresh_jobs_again (scheduled_jobs validate is_blank (data_or_nil data')) s d
