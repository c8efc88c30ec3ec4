-- ===== src/Workers/Scheduler/Balance.antt =====
-- src/services/report-scheduler.service.ts: no task is lost while it runs.
use musanad_contracts_backen.Base.{
  ℕ, ◌+◌, ◌≡◌, refl, ◌∙◌, inl, inr, String, Bool, Option, none, some, List, [], ◌∷◌, map, arith,
  ◌==◌, Bool-cases, if◌then◌else◌,
}
use musanad_contracts_backen.Workers.Scheduler.{
  ScheduledEntry, Action, started, stopped, Entries, Scheduler, get, set, delete, Job, entry_of,
  includes_id, scheduled_jobs, unchanged, schedule, unschedule, register_found, register,
  remove_unseen, refresh_jobs, Listing, failed, listed, data_or_nil, refresh_schedules, stop_all,
  stop_report_scheduler,
}
use musanad_contracts_backen.Workers.Scheduler.Laws.{get-set, get-delete}

-- Starts and stops of the tasks of one template.
abbrev pub starts : ℕ → List Action → ℕ
starts k [] = 0
starts k (started j ∷ l) = (if j == k then 1 else 0) + starts k l
starts k (stopped j ∷ l) = starts k l

abbrev pub stops : ℕ → List Action → ℕ
stops k [] = 0
stops k (started j ∷ l) = stops k l
stops k (stopped j ∷ l) = (if j == k then 1 else 0) + stops k l

abbrev pub held : Option ScheduledEntry → ℕ
held none = 0
held (some e) = 1

-- Of each template, as many tasks are started and not stopped as the map holds: one or none.
abbrev pub IsBalanced : Scheduler → Type 0
IsBalanced s = (k : ℕ) → starts k s.log ≡ stops k s.log + held (get k s.entries)

schedule-IsBalanced :
    (j : Job) (s : Scheduler) → get j.id s.entries ≡ none → IsBalanced s → IsBalanced (schedule j s)
schedule-IsBalanced j s h b k = ground (arith, get-set j.id k (entry_of j) s.entries, b k, h)

unschedule-IsBalanced :
    (i : ℕ) (e : ScheduledEntry) (s : Scheduler)
    → get i s.entries ≡ some e
    → IsBalanced s
    → IsBalanced (unschedule i s)
unschedule-IsBalanced i e s h b k = ground (arith, get-delete i k s.entries, b k, h)

found-IsBalanced :
    (j : Job) (s : Scheduler) (o : Option ScheduledEntry)
    → get j.id s.entries ≡ o
    → IsBalanced s
    → IsBalanced (register_found j s o)
found-IsBalanced j s none h b = schedule-IsBalanced j s h b
found-IsBalanced j s (some e) h b = elim (Bool-cases (unchanged e j)) [
  | inl same ↦ rw same b
  | inr differ ↦ rw differ (
      schedule-IsBalanced j (unschedule j.id s) (get-delete j.id j.id s.entries ∙ ground arith)
        (unschedule-IsBalanced j.id e s h b))
]

register-IsBalanced : (js : List Job) (s : Scheduler) → IsBalanced s → IsBalanced (register js s)
unfolding register
register-IsBalanced [] s b = b
register-IsBalanced (j ∷ js) s b =
    register-IsBalanced js (register_found j s (get j.id s.entries))
      (found-IsBalanced j s (get j.id s.entries) refl b)

-- Keys differ, as they do in a Map.
abbrev pub IsMap : Entries → Type 0
IsMap [] = Unit {0}
IsMap ((k, e) ∷ es) = (get k es ≡ none) × IsMap es

set-IsMap : (k : ℕ) (e : ScheduledEntry) (es : Entries) → IsMap es → IsMap (set k e es)
unfolding get set
set-IsMap k e [] h = (refl, tt)
set-IsMap k e ((j, d) ∷ es) (a, h) = elim (Bool-cases (j == k)) [
  | inl y ↦ rw y (a, h)
  | inr n ↦ rw n (get-set k j e es ∙ ground arith, set-IsMap k e es h)
]

delete-IsMap : (k : ℕ) (es : Entries) → IsMap es → IsMap (delete k es)
unfolding get delete
delete-IsMap k [] h = tt
delete-IsMap k ((j, d) ∷ es) (a, h) = elim (Bool-cases (j == k)) [
  | inl y ↦ rw y (delete-IsMap k es h)
  | inr n ↦ rw n (get-delete k j es ∙ ground arith, delete-IsMap k es h)
]

found-IsMap :
    (j : Job) (s : Scheduler) (o : Option ScheduledEntry)
    → IsMap s.entries
    → IsMap (register_found j s o).entries
found-IsMap j s none h = set-IsMap j.id (entry_of j) s.entries h
found-IsMap j s (some e) h = elim (Bool-cases (unchanged e j)) [
  | inl same ↦ rw same h
  | inr differ ↦
      rw differ
        (set-IsMap j.id (entry_of j) (delete j.id s.entries) (delete-IsMap j.id s.entries h))
]

register-IsMap : (js : List Job) (s : Scheduler) → IsMap s.entries → IsMap (register js s).entries
unfolding register
register-IsMap [] s h = h
register-IsMap (j ∷ js) s h =
    register-IsMap js (register_found j s (get j.id s.entries))
      (found-IsMap j s (get j.id s.entries) h)

-- Every entry that is still to come stands in the map.
abbrev Within : Entries → Entries → Type 0
Within es full = (k : ℕ) (e : ScheduledEntry) → get k es ≡ some e → get k full ≡ some e

-- The loop keeps a scheduler whose map holds what is still to come.
remove-kept :
    (seen : List ℕ) (es : Entries) (s : Scheduler)
    → IsMap es
    → Within es s.entries
    → IsBalanced s
    → IsMap s.entries
    → IsBalanced (remove_unseen seen es s) × IsMap (remove_unseen seen es s).entries
unfolding remove_unseen get
remove-kept seen [] s h w b m = (b, m)
remove-kept seen ((j, e) ∷ es) s (a, h) w b m =
    let here : get j s.entries ≡ some e = w j e (ground arith) in
    let later : Within es s.entries = λ k d g. w k d (ground arith) in
    elim (Bool-cases (includes_id seen j)) [
      | inl y ↦ rw (remove_unseen, y) (remove-kept seen es s h later b m)
      | inr n ↦
          rw (remove_unseen, n)
            (remove-kept seen es (unschedule j s) h
              (λ k d g. ground (arith, get-delete j k s.entries, later k d g))
              (unschedule-IsBalanced j e s here b) (delete-IsMap j s.entries m))
    ]

-- A scheduler as it can be: the keys of its map differ, and its tasks are balanced.
abbrev pub IsSound : Scheduler → Type 0
IsSound s = IsBalanced s × IsMap s.entries

refresh_jobs-IsSound : (js : List Job) (s : Scheduler) → IsSound s → IsSound (refresh_jobs js s)
refresh_jobs-IsSound js s (b, m) =
    let s' : Scheduler = register js s in
    let m' : IsMap s'.entries = register-IsMap js s m in
    remove-kept (map (λ j. j.id) js) s'.entries s' m' (λ k e g. g) (register-IsBalanced js s b) m'

stop_all-balance :
    (k : ℕ) (es : Entries) (log : List Action)
    → IsMap es
    → (starts k (stop_all es log) ≡ starts k log)
      × (stops k (stop_all es log) ≡ stops k log + held (get k es))
unfolding stop_all get
stop_all-balance k [] log h = (refl, omega arith)
stop_all-balance k ((j, e) ∷ es) log (a, h) =
    let (p, q) = stop_all-balance k es (stopped j ∷ log) h in (p, q ∙ ground (arith, a))

listing-IsSound :
    (validate is_blank : String → Bool) (l : Listing) (s : Scheduler)
    → IsSound s
    → IsSound (refresh_schedules validate is_blank l s)
unfolding refresh_schedules
listing-IsSound validate is_blank failed s h = h
listing-IsSound validate is_blank (listed d) s h =
    refresh_jobs-IsSound (scheduled_jobs validate is_blank (data_or_nil d)) s h

-- A scan and a stop of the scheduler keep it sound: of each template, as many tasks are started and
-- not stopped as the map holds, so that none is lost while it runs and none runs twice. After a stop
-- the map is empty and every task that was started is stopped.
pub refresh-IsSound :
    (validate is_blank : String → Bool) (l : Listing) (s : Scheduler)
    → IsSound s
    → IsSound (refresh_schedules validate is_blank l s)
      × IsSound (stop_report_scheduler s)
      × ((k : ℕ) → starts k (stop_report_scheduler s).log ≡ stops k (stop_report_scheduler s).log)
unfolding stop_report_scheduler get
refresh-IsSound validate is_blank l s (b, m) =
    let even : (k : ℕ) → starts k (stop_all s.entries s.log) ≡ stops k (stop_all s.entries s.log) =
      λ k. let (p, q) = stop_all-balance k s.entries s.log m in omega (arith, p, q, b k) in
    (listing-IsSound validate is_blank l s (b, m), (λ k. even k ∙ omega arith, tt), even)
