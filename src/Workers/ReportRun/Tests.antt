-- ===== src/Workers/ReportRun/Tests.antt =====
-- src/services/report-run-executor.service.ts, src/workers/report-run.worker.ts: runs on
-- concrete values.
use musanad_contracts_backen.Base.{
  if◌then◌else◌, ◌⊎◌, ℕ, ◌≡◌, refl, true, none, some, List, [], ◌∷◌, codes, length,
}
use musanad_contracts_backen.Calls.{returned, guard_passes}
use musanad_contracts_backen.Workers.ReportRun.{
  PendingRunRow, ReportTemplate, ReportCall, module_enabled, ReportAnswers, pdf, scheduled,
  execute_report_run_row, process_run, mark_failed, dispatch_all,
}
use musanad_contracts_backen.Workers.ReportRun.Laws.{
  end_calls, recipients_of, IsEnded, process_run-end_calls, execute_report_run_row-IsEnded,
}

abbrev monthly : ReportTemplate
monthly = record {
  template_id = codes "monthly";
  display_name_en = codes "Monthly";
  data_source = codes "contract_summary";
  is_scheduled = true;
  schedule_recipients = some (codes "a@example.com" ∷ codes "b@example.com" ∷ []);
}

abbrev run_row : PendingRunRow
run_row = record {
  id = 4;
  tenant_id = codes "t";
  report_template_id = 2;
  format = pdf;
  parameters = none;
  triggered_by = scheduled;
}

-- A file is its size.
abbrev calm : ReportAnswers ℕ ℕ
calm = record {
  enabled = λ calls. returned true;
  template = λ calls. returned (some monthly);
  envelope = λ calls. returned (some 1);
  rendered = λ calls. returned 100;
  run = λ calls. none;
  byte_length = λ file. file;
  build_report_output_path = λ row. codes "path";
}

-- The upload throws.
abbrev no_upload : ReportAnswers ℕ ℕ
no_upload = record calm { run = λ calls. some (codes "full") }

abbrev guard : List (ReportCall ℕ ℕ)
guard = module_enabled (codes "t") (codes "reports") ∷ []

-- Guard, template, data, rendering, upload, completion and two mails.
report_tests :
    (length (process_run calm run_row) ≡ 8)
    × ((execute_report_run_row calm 0 run_row guard).0.ok ≡ true)
    × ((execute_report_run_row no_upload 0 run_row guard).0.error
        ≡ some (codes "upload_failed: full"))
unfolding process_run execute_report_run_row mark_failed dispatch_all guard_passes
report_tests = (refl, refl, refl)

execute_report_run_row-IsEnded_example :
    let (r, after) = execute_report_run_row no_upload 0 run_row guard in
    IsEnded no_upload r guard after
execute_report_run_row-IsEnded_example = execute_report_run_row-IsEnded no_upload 0 run_row guard

process_run-end_calls_example :
    let start : List (ReportCall ℕ ℕ) = module_enabled (codes "t") (codes "reports") ∷ [] in
    let (r, calls) = execute_report_run_row calm 0 run_row start in
    (end_calls calm (process_run calm run_row)
      ≡ (if guard_passes (calm.enabled start) then 1 else 0))
    × ((recipients_of calm (process_run calm run_row) ≡ []) ⊎ (r.ok ≡ true))
process_run-end_calls_example = process_run-end_calls calm run_row
