-- ===== src/Workers/Scheduler.antt =====
-- src/services/report-scheduler.service.ts: the map of registered report tasks, and the scan that
-- brings it up to date. A Map is a list of pairs in insertion order. A task of the cron library is
-- opaque: `log` has, newest first, which tasks are started and stopped, by the template they belong
-- to.
pub mod Laws
pub mod Balance
pub mod Again
use musanad_contracts_backen.Base.{
  ℕ, String, Bool, true, false, not, ◌&&◌, Option, none, some, List, [], ◌∷◌, map, ◌=s◌, ◌==◌,
  if◌then◌else◌,
}

pub data ReportKind : Type 0 where
  pdf excel both : ReportKind

abbrev pub same_kind : ReportKind → ReportKind → Bool
same_kind pdf pdf = true
same_kind excel excel = true
same_kind both both = true
same_kind _ _ = false

-- `typeof t.scheduleCron === 'string'` fails at `none`.
pub record ScheduledTemplate : Type 0 where
  pub id : ℕ
  pub template_id : String
  pub report_kind : ReportKind
  pub schedule_cron : Option String
  pub is_scheduled : Bool
  pub enabled : Bool

pub record ScheduledEntry : Type 0 where
  pub cron : String
  pub report_kind : ReportKind

pub data Action : Type 0 where
  started : ℕ → Action
  stopped : ℕ → Action

abbrev pub Entries : Type 0
Entries = List (ℕ × ScheduledEntry)

-- `_scheduledTasks`, `_rescanTask` and the tasks started and stopped so far.
pub record Scheduler : Type 0 where
  pub entries : Entries
  pub rescan : Bool
  pub log : List Action

-- `_scheduledTasks.get(k)`, `set(k, e)` and `delete(k)`.
unfoldable pub get : ℕ → Entries → Option ScheduledEntry
get k [] = none
get k ((j, e) ∷ es) = if j == k then some e else get k es

unfoldable pub set : ℕ → ScheduledEntry → Entries → Entries
set k e [] = (k, e) ∷ []
set k e ((j, d) ∷ es) = if j == k then (j, e) ∷ es else (j, d) ∷ set k e es

unfoldable pub delete : ℕ → Entries → Entries
delete k [] = []
delete k ((j, e) ∷ es) = let rest = delete k es in if j == k then rest else (j, e) ∷ rest

-- A template that passes the filter, with its expression.
pub record Job : Type 0 where
  pub id : ℕ
  pub cron : String
  pub report_kind : ReportKind

abbrev pub entry_of : Job → ScheduledEntry
entry_of j = record { cron = j.cron; report_kind = j.report_kind }

abbrev pub includes_id : List ℕ → ℕ → Bool
includes_id [] k = false
includes_id (j ∷ js) k = if j == k then true else includes_id js k

-- `validate` is `cron.validate`, `is_blank` holds of a text that `trim` leaves empty.
module _ (validate is_blank : String → Bool) where
  abbrev pub to_job : ScheduledTemplate → String → Option Job
  to_job t c =
      if t.is_scheduled && t.enabled && not (is_blank c) && validate c
      then some (record { id = t.id; cron = c; report_kind = t.report_kind })
      else none

  abbrev pub template_job : ScheduledTemplate → Option String → Option Job
  template_job t none = none
  template_job t (some c) = to_job t c

  abbrev pub prepend : Option Job → List Job → List Job
  prepend none js = js
  prepend (some j) js = j ∷ js

  -- `list.filter(…)`
  unfoldable pub scheduled_jobs : List ScheduledTemplate → List Job
  scheduled_jobs [] = []
  scheduled_jobs (t ∷ ts) = prepend (template_job t t.schedule_cron) (scheduled_jobs ts)

abbrev pub unchanged : ScheduledEntry → Job → Bool
unchanged e j = e.cron =s j.cron && same_kind e.report_kind j.report_kind

abbrev pub schedule : Job → Scheduler → Scheduler
schedule j s = record s { entries = set j.id (entry_of j) s.entries; log = started j.id ∷ s.log }

abbrev pub unschedule : ℕ → Scheduler → Scheduler
unschedule k s = record s { entries = delete k s.entries; log = stopped k ∷ s.log }

-- The body of the loop over the templates, with what the map has under the template's id.
abbrev pub register_found : Job → Scheduler → Option ScheduledEntry → Scheduler
register_found j s none = schedule j s
register_found j s (some e) = if unchanged e j then s else schedule j (unschedule j.id s)

unfoldable pub register : List Job → Scheduler → Scheduler
register [] s = s
register (j ∷ js) s = register js (register_found j s (get j.id s.entries))

-- The loop over the entries of the map, as they stand when it begins: each is deleted under its own
-- key, which takes no entry that is still to come.
unfoldable pub remove_unseen : List ℕ → Entries → Scheduler → Scheduler
remove_unseen seen [] s = s
remove_unseen seen ((k, e) ∷ es) s =
    remove_unseen seen es (if includes_id seen k then s else unschedule k s)

abbrev pub refresh_jobs : List Job → Scheduler → Scheduler
refresh_jobs js s = let s' = register js s in remove_unseen (map (λ j. j.id) js) s'.entries s'

-- What the call of the database gives: it throws, or a result whose `data` may be missing.
pub data Listing : Type 0 where
  failed : Listing
  listed : Option (List ScheduledTemplate) → Listing

abbrev pub data_or_nil : Option (List ScheduledTemplate) → List ScheduledTemplate
data_or_nil none = []
data_or_nil (some ts) = ts

unfoldable pub refresh_schedules :
    (validate is_blank : String → Bool) → Listing → Scheduler → Scheduler
unfolding scheduled_jobs register remove_unseen
refresh_schedules validate is_blank failed s = s
refresh_schedules validate is_blank (listed data') s =
    refresh_jobs (scheduled_jobs validate is_blank (data_or_nil data')) s

-- `startReportScheduler`, for the two environment variables; true if it scans at once. The start and
-- stop of the rescan task itself are not in `log`.
unfoldable pub start_report_scheduler :
    (test_mode switched_on : Bool) → Scheduler → Scheduler × Bool
start_report_scheduler test_mode switched_on s =
    if test_mode
    then (s, false)
    else if not switched_on
    then (s, false)
    else if s.rescan
    then (s, false)
    else (record s { rescan = true }, true)

unfoldable pub stop_all : Entries → List Action → List Action
stop_all [] log = log
stop_all ((k, e) ∷ es) log = stop_all es (stopped k ∷ log)

unfoldable pub stop_report_scheduler : Scheduler → Scheduler
unfolding stop_all
stop_report_scheduler s = record { entries = []; rescan = false; log = stop_all s.entries s.log }
