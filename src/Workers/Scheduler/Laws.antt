-- ===== src/Workers/Scheduler/Laws.antt =====
-- src/services/report-scheduler.service.ts: what a scan leaves registered and running.
use musanad_contracts_backen.Base.{
  ℕ, ◌≡◌, refl, sym, ap, ◌∙◌, inl, inr, Bool, true, false, Option, none, some, List, [], ◌∷◌, map,
  arith, ◌=s◌, =s_iff, ◌==◌, Bool-cases, if◌then◌else◌,
}
use musanad_contracts_backen.Workers.Scheduler.{
  ReportKind, pdf, excel, both, same_kind, ScheduledEntry, Entries, Scheduler, get, set, delete,
  Job, entry_of, includes_id, unchanged, unschedule, register_found, register, remove_unseen,
  refresh_jobs,
}

pub get-set :
    (k j : ℕ) (e : ScheduledEntry) (es : Entries)
    → get j (set k e es) ≡ (if k == j then some e else get j es)
unfolding get set
get-set k j e [] = refl
get-set k j e ((i, d) ∷ es) = ground (arith, get-set k j e es)

pub get-delete :
    (k j : ℕ) (es : Entries) → get j (delete k es) ≡ (if k == j then none else get j es)
unfolding get delete
get-delete k j [] = ground arith
get-delete k j ((i, d) ∷ es) = ground (arith, get-delete k j es)

pub same_kind_eq : (a b : ReportKind) → same_kind a b ≡ true → a ≡ b
same_kind_eq pdf pdf h = refl
same_kind_eq excel excel h = refl
same_kind_eq both both h = refl
same_kind_eq pdf excel h = cc
same_kind_eq pdf both h = cc
same_kind_eq excel pdf h = cc
same_kind_eq excel both h = cc
same_kind_eq both pdf h = cc
same_kind_eq both excel h = cc

unchanged_eq : (e : ScheduledEntry) (j : Job) → unchanged e j ≡ true → e ≡ entry_of j
unchanged_eq e j h = elim (Bool-cases (e.cron =s j.cron)) [
  | inr no' ↦ cc (rw no' at h)
  | inl yes' ↦
      ap (λ c. record { cron = c; report_kind = e.report_kind }) ((=s_iff e.cron j.cron).0 yes')
      ∙ ap (λ k. record { cron = j.cron; report_kind = k })
          (same_kind_eq e.report_kind j.report_kind (rw yes' at h))
]

-- What stands under an id once the templates are registered, the last one with the id deciding.
abbrev pub last_entry : ℕ → List Job → Option ScheduledEntry → Option ScheduledEntry
last_entry k [] o = o
last_entry k (j ∷ js) o = last_entry k js (if j.id == k then some (entry_of j) else o)

get-found :
    (k : ℕ) (j : Job) (s : Scheduler) (o : Option ScheduledEntry)
    → get j.id s.entries ≡ o
    → get k (register_found j s o).entries
      ≡ (if j.id == k then some (entry_of j) else get k s.entries)
get-found k j s none h = get-set j.id k (entry_of j) s.entries
get-found k j s (some e) h = elim (Bool-cases (unchanged e j)) [
  | inl same ↦ rw same (ground (arith, unchanged_eq e j same, h))
  | inr differ ↦ rw differ (
      get-set j.id k (entry_of j) (delete j.id s.entries)
      ∙ ground (arith, get-delete j.id k s.entries))
]

get-register :
    (k : ℕ) (js : List Job) (s : Scheduler)
    → get k (register js s).entries ≡ last_entry k js (get k s.entries)
unfolding register
get-register k [] s = refl
get-register k (j ∷ js) s =
    get-register k js (register_found j s (get j.id s.entries))
    ∙ ap (last_entry k js) (get-found k j s (get j.id s.entries) refl)

abbrev seen_or_none : Bool → Option ScheduledEntry → Option ScheduledEntry
seen_or_none b o = if b then o else none

abbrev has_key : ℕ → Entries → Bool
has_key k [] = false
has_key k ((j, e) ∷ es) = if j == k then true else has_key k es

has_key-get : (k : ℕ) (es : Entries) → has_key k es ≡ false → get k es ≡ none
unfolding get
has_key-get k [] h = refl
has_key-get k ((j, e) ∷ es) h = ground (arith, has_key-get k es)

get-remove :
    (k : ℕ) (seen : List ℕ) (es : Entries) (s : Scheduler)
    → get k (remove_unseen seen es s).entries ≡ (
        if has_key k es
        then seen_or_none (includes_id seen k) (get k s.entries)
        else get k s.entries)
unfolding remove_unseen
get-remove k seen [] s = refl
get-remove k seen ((j, e) ∷ es) s = elim (Bool-cases (includes_id seen j)) [
  | inl yes' ↦ rw (remove_unseen, yes') (get-remove k seen es s ∙ ground arith)
  | inr no' ↦
      rw (remove_unseen, no')
        (get-remove k seen es (unschedule j s) ∙ ground (arith, get-delete j k s.entries))
]

last_entry-seen :
    (k : ℕ) (js : List Job) (o p : Option ScheduledEntry)
    → includes_id (map (λ j. j.id) js) k ≡ true
    → last_entry k js o ≡ last_entry k js p
last_entry-seen k [] o p h = cc
last_entry-seen k (j ∷ js) o p h = elim (Bool-cases (j.id == k)) [
  | inl e ↦ rw e
  | inr e ↦ rw e (last_entry-seen k js o p (rw e at h))
]

pub last_entry-unseen :
    (k : ℕ) (js : List Job)
    → includes_id (map (λ j. j.id) js) k ≡ false
    → last_entry k js none ≡ none
last_entry-unseen k [] h = refl
last_entry-unseen k (j ∷ js) h = elim (Bool-cases (j.id == k)) [
  | inl e ↦ absurd (cc (rw e at h))
  | inr e ↦ rw e (last_entry-unseen k js (rw e at h))
]

pub get-refresh :
    (k : ℕ) (js : List Job) (s : Scheduler)
    → get k (refresh_jobs js s).entries ≡ last_entry k js none
get-refresh k js s =
    let ids : List ℕ = map (λ j. j.id) js in
    let s' : Scheduler = register js s in
    get-remove k ids s'.entries s' ∙ elim (Bool-cases (has_key k s'.entries)) [
      | inr absent ↦ rw absent (
          has_key-get k s'.entries absent ∙ elim (Bool-cases (includes_id ids k)) [
            | inr e ↦ sym (last_entry-unseen k js e)
            | inl e ↦
                sym (has_key-get k s'.entries absent)
                ∙ get-register k js s
                ∙ last_entry-seen k js (get k s.entries) none e
          ])
      | inl held ↦ elim (Bool-cases (includes_id ids k)) [
        | inl e ↦ rw (held, e) (get-register k js s ∙ last_entry-seen k js (get k s.entries) none e)
        | inr e ↦ rw (held, e) (sym (last_entry-unseen k js e))
      ]
    ]
