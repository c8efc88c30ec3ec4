-- ===== src/Workers/ReportRun.antt =====
-- src/services/report-run-executor.service.ts and src/workers/report-run.worker.ts: a report run from its
-- template to its end, and the delivery of a scheduled report. A run is the sequence of its calls,
-- newest first; what each call gives is a parameter, which sees the calls up to it.
pub mod Laws
mod Tests
use musanad_contracts_backen.Base.{
  ℕ, ◌+◌, ◌++◌, Bool, true, false, not, ◌&&◌, ◌||◌, Option, none, some, List, [], ◌∷◌, map, codes,
  take, leb, ◌==◌, if◌then◌else◌,
}
use musanad_contracts_backen.Calls.{
  Units, Outcome, returned, thrown, guard_passes, start_driver, stop_driver,
}

pub data ReportFormat : Type 0 where
  pdf excel : ReportFormat

pub data TriggeredBy : Type 0 where
  manual scheduled : TriggeredBy

-- `parameters` is the JSON text of the parameters, or none where there are none.
pub record PendingRunRow : Type 0 where
  pub id : ℕ
  pub tenant_id : Units
  pub report_template_id : ℕ
  pub format : ReportFormat
  pub parameters : Option Units
  pub triggered_by : TriggeredBy

-- The fields that are read; `schedule_recipients` is none where it is no array.
pub record ReportTemplate : Type 0 where
  pub template_id : Units
  pub display_name_en : Units
  pub data_source : Units
  pub is_scheduled : Bool
  pub schedule_recipients : Option (List Units)

-- The result without the two texts that repeat the template's.
pub record ReportRunExecuteResult : Type 0 where
  pub ok : Bool
  pub storage_path : Option Units
  pub size_bytes : Option ℕ
  pub mime_type : Option Units
  pub error : Option Units
  pub template : Option ReportTemplate

-- `E` is the type of the data of a report, `B` that of a rendered file.
pub data ReportCall (E B : Type 0) : Type 0 where
  module_enabled : (tenant key : Units) → ReportCall E B
  report_template_get_by_id : (actor template : ℕ) (tenant : Units) → ReportCall E B
  report_data : (name : Units) (actor : ℕ) (parameters tenant : Units) → ReportCall E B
  render : ReportFormat → E → (slug display_name : Units) → ReportCall E B
  upload : (path : Units) → B → (mime : Units) → ReportCall E B
  report_run_complete : (run : ℕ) (tenant path : Units) (bytes : ℕ) → ReportCall E B
  report_run_failed : (run : ℕ) (tenant message : Units) → ReportCall E B
  notification_dispatch : PendingRunRow → ReportTemplate → (path recipient : Units) → ReportCall E B

-- What the calls give; each sees the calls made, of which the newest is its own. `run` is what a call
-- throws whose result is not read, or none; `envelope` gives none for what is no object. The path of
-- a run is built from the time of its upload, once a run.
pub record ReportAnswers (E B : Type 0) : Type 0 where
  pub enabled : List (ReportCall E B) → Outcome Bool
  pub template : List (ReportCall E B) → Outcome (Option ReportTemplate)
  pub envelope : List (ReportCall E B) → Outcome (Option E)
  pub rendered : List (ReportCall E B) → Outcome B
  pub run : List (ReportCall E B) → Option Units
  pub byte_length : B → ℕ
  pub build_report_output_path : PendingRunRow → Units

-- `/[a-z0-9_]/i` on a code unit
abbrev pub is_slug_unit : ℕ → Bool
is_slug_unit c =
    (leb 97 c && leb c 122) || (leb 65 c && leb c 90) || (leb 48 c && leb c 57) || (c == 95)

abbrev pub all_slug_units : Units → Bool
all_slug_units [] = true
all_slug_units (c ∷ cs) = is_slug_unit c && all_slug_units cs

-- The test of the function's name: what follows `fn_report_data_` is `[a-z0-9_]+`, in any case.
abbrev pub is_data_source : Units → Bool
is_data_source [] = false
is_data_source (c ∷ cs) = all_slug_units (c ∷ cs)

abbrev pub mime_of : ReportFormat → Units
mime_of pdf = codes "application/pdf"
mime_of excel = codes "application/vnd.openxmlformats-officedocument.spreadsheetml.sheet"

abbrev pub or_empty_object : Option Units → Units
or_empty_object none = codes "{}"
or_empty_object (some text) = text

abbrev pub is_scheduled_run : TriggeredBy → Bool
is_scheduled_run manual = false
is_scheduled_run scheduled = true

abbrev pub recipients_to_tell : ReportTemplate → List Units
recipients_to_tell t =
    if t.is_scheduled then elim t.schedule_recipients [ none ↦ [] | some xs ↦ xs ] else []

module _ {E B : Type 0} (answers : ReportAnswers E B) where
  abbrev pub Ending : Type 0
  Ending = ReportRunExecuteResult × List (ReportCall E B)

  -- `markFailed`, whose own exception is only logged, and the result that follows it.
  unfoldable pub mark_failed :
      PendingRunRow → Option ReportTemplate → Units → List (ReportCall E B) → Ending
  mark_failed row t message calls = (
    record {
      ok = false;
      storage_path = none;
      size_bytes = none;
      mime_type = none;
      error = some message;
      template = t;
    },
    report_run_failed row.id row.tenant_id message ∷ calls,
  )

  -- Step 5, for what its call threw.
  abbrev pub after_completion :
      PendingRunRow → ReportTemplate → B → Option Units → List (ReportCall E B) → Ending
  after_completion row t file thrown_message calls = (
    record {
      ok = elim thrown_message [ none ↦ true | some m ↦ false ];
      storage_path = some (answers.build_report_output_path row);
      size_bytes = some (answers.byte_length file);
      mime_type = some (mime_of row.format);
      error = elim thrown_message [
        | none ↦ none
        | some m ↦ some (codes "complete_fn_failed: " ++ take 300 m)
      ];
      template = some t;
    },
    calls,
  )

  -- Steps 4 and 5, for what the upload threw.
  abbrev pub after_upload :
      PendingRunRow → ReportTemplate → B → Option Units → List (ReportCall E B) → Ending
  after_upload row t file (some m) calls =
      mark_failed row (some t) (codes "upload_failed: " ++ take 500 m) calls
  after_upload row t file none calls =
      let path = answers.build_report_output_path row in
      let calls' =
        report_run_complete row.id row.tenant_id path (answers.byte_length file) ∷ calls in
      after_completion row t file (answers.run calls') calls'

  -- Steps 3 to 5, for what the renderer gave.
  abbrev pub after_render :
      PendingRunRow → ReportTemplate → Outcome B → List (ReportCall E B) → Ending
  after_render row t (thrown m) calls =
      mark_failed row (some t) (codes "render_failed: " ++ take 500 m) calls
  after_render row t (returned file) calls =
      let path = answers.build_report_output_path row in
      let calls' = upload path file (mime_of row.format) ∷ calls in
      after_upload row t file (answers.run calls') calls'

  -- Steps 2 to 5, for what the data function gave.
  abbrev pub after_data :
      PendingRunRow → ReportTemplate → Outcome (Option E) → List (ReportCall E B) → Ending
  after_data row t (thrown m) calls =
      mark_failed row (some t) (codes "data_fn_failed: " ++ take 500 m) calls
  after_data row t (returned none) calls =
      mark_failed row (some t) (codes "data_fn_failed: data fn returned empty envelope") calls
  after_data row t (returned (some data_of_report)) calls =
      let calls' = render row.format data_of_report t.data_source t.display_name_en ∷ calls in
      after_render row t (answers.rendered calls') calls'

  abbrev pub call_data : ℕ → PendingRunRow → ReportTemplate → List (ReportCall E B) → Ending
  call_data actor row t calls =
      let name = codes "fn_report_data_" ++ t.data_source in
      let calls' = report_data name actor (or_empty_object row.parameters) row.tenant_id ∷ calls in
      after_data row t (answers.envelope calls') calls'

  -- Steps 1 to 5, for what the lookup of the template gave.
  abbrev pub after_template :
      ℕ → PendingRunRow → Outcome (Option ReportTemplate) → List (ReportCall E B) → Ending
  after_template actor row (thrown m) calls =
      mark_failed row none (codes "template_lookup_failed: " ++ take 300 m) calls
  after_template actor row (returned none) calls =
      mark_failed row none (codes "template_not_found") calls
  after_template actor row (returned (some t)) calls =
      if is_data_source t.data_source
      then call_data actor row t calls
      else mark_failed row (some t) (codes "invalid_data_source_slug") calls

  unfoldable pub execute_report_run_row :
      (actor : ℕ) → PendingRunRow → List (ReportCall E B) → Ending
  execute_report_run_row actor row calls =
      let calls' = report_template_get_by_id actor row.report_template_id row.tenant_id ∷ calls in
      after_template actor row (answers.template calls') calls'

  -- The delivery to each recipient in order; an exception is only logged.
  unfoldable pub dispatch_all :
      PendingRunRow
      → ReportTemplate
      → (path : Units) → List Units
      → List (ReportCall E B)
      → List (ReportCall E B)
  dispatch_all row t path [] calls = calls
  dispatch_all row t path (recipient ∷ recipients) calls =
      dispatch_all row t path recipients (notification_dispatch row t path recipient ∷ calls)

  abbrev pub deliver :
      PendingRunRow
      → Option ReportTemplate
      → Option Units
      → List (ReportCall E B)
      → List (ReportCall E B)
  deliver row (some t) (some (c ∷ path)) calls =
      dispatch_all row t (c ∷ path) (recipients_to_tell t) calls
  deliver row none path calls = calls
  deliver row (some t) none calls = calls
  deliver row (some t) (some []) calls = calls

  abbrev pub after_execution : PendingRunRow → Ending → List (ReportCall E B)
  after_execution row (result, calls) =
      if result.ok && is_scheduled_run row.triggered_by
      then deliver row result.template result.storage_path calls
      else calls

  unfoldable pub process_run : PendingRunRow → List (ReportCall E B)
  unfolding guard_passes
  process_run row =
      let calls = module_enabled row.tenant_id (codes "reports") ∷ [] in
      if guard_passes (answers.enabled calls)
      then after_execution row (execute_report_run_row 0 row calls)
      else calls

-- `processBatch`, for what the call for pending runs gives, none where it has no runs. Two runs at a
-- time at most; what a run's calls give may depend on the run in any way.
unfoldable pub process_runs :
    {E B : Type 0}
    → (PendingRunRow → ReportAnswers E B)
    → Outcome (Option (List PendingRunRow))
    → List (List (ReportCall E B))
unfolding process_run
process_runs answers (thrown m) = []
process_runs answers (returned none) = []
process_runs answers (returned (some rows)) = map (λ row. process_run (answers row) row) rows

-- Whether a task is held after it; the start returns nothing.
unfoldable pub start_report_run_worker : (test_mode switched_on running : Bool) → Bool
unfolding start_driver
start_report_run_worker test_mode switched_on running =
    (start_driver test_mode switched_on true running).1

unfoldable pub stop_report_run_worker : (running : Bool) → Bool
unfolding stop_driver
stop_report_run_worker running = stop_driver running
