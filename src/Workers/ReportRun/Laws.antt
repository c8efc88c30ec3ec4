-- ===== src/Workers/ReportRun/Laws.antt =====
-- src/services/report-run-executor.service.ts and src/workers/report-run.worker.ts: how runs end.
use musanad_contracts_backen.Base.{
  ℕ, suc, ◌≡◌, refl, ◌∙◌, inl, inr, Bool, true, false, Option, none, some, List, [], ◌∷◌, ◌++◌, ◌⊎◌,
  codes, Bool-cases, Option-cases, if◌then◌else◌,
}
use musanad_contracts_backen.Calls.{Units, Outcome, returned, thrown, guard_passes}
use musanad_contracts_backen.Workers.ReportRun.{
  PendingRunRow, ReportTemplate, ReportRunExecuteResult, ReportCall, module_enabled,
  report_template_get_by_id, report_data, render, upload, report_run_complete, report_run_failed,
  notification_dispatch, ReportAnswers, is_data_source, mark_failed, after_upload, after_render,
  after_data, after_template, execute_report_run_row, dispatch_all, deliver, after_execution,
  is_scheduled_run, process_run, mime_of, recipients_to_tell, or_empty_object,
}

module _ {E B : Type 0} (answers : ReportAnswers E B) where
  abbrev Calls : Type 0
  Calls = List (ReportCall E B)

  -- How many calls report an end of the run, whether or not they return.
  unfoldable pub end_calls : Calls → ℕ
  end_calls [] = 0
  end_calls (module_enabled t k ∷ calls) = end_calls calls
  end_calls (report_template_get_by_id a n t ∷ calls) = end_calls calls
  end_calls (report_data n a p t ∷ calls) = end_calls calls
  end_calls (render f e s d ∷ calls) = end_calls calls
  end_calls (upload p b m ∷ calls) = end_calls calls
  end_calls (report_run_complete r t p n ∷ calls) = suc (end_calls calls)
  end_calls (report_run_failed r t m ∷ calls) = suc (end_calls calls)
  end_calls (notification_dispatch r t p x ∷ calls) = end_calls calls

  -- The recipients that a delivery was tried for, the last first.
  unfoldable pub recipients_of : Calls → List Units
  recipients_of [] = []
  recipients_of (module_enabled t k ∷ calls) = recipients_of calls
  recipients_of (report_template_get_by_id a n t ∷ calls) = recipients_of calls
  recipients_of (report_data n a p t ∷ calls) = recipients_of calls
  recipients_of (render f e s d ∷ calls) = recipients_of calls
  recipients_of (upload p b m ∷ calls) = recipients_of calls
  recipients_of (report_run_complete r t p n ∷ calls) = recipients_of calls
  recipients_of (report_run_failed r t m ∷ calls) = recipients_of calls
  recipients_of (notification_dispatch r t p x ∷ calls) = x ∷ recipients_of calls

  abbrev pub is_none : Option Units → Bool
  is_none none = true
  is_none (some m) = false

  -- Whether the newest call is a completion that returned.
  unfoldable pub completes : Calls → Bool
  completes (report_run_complete r t p n ∷ calls) =
      is_none (answers.run (report_run_complete r t p n ∷ calls))
  completes _ = false

  -- The path that the newest call completes the run with.
  unfoldable pub completed_path : Calls → Option Units
  completed_path (report_run_complete r t p n ∷ calls) = some p
  completed_path _ = none

  -- The error that the newest call records.
  unfoldable pub recorded_error : Calls → Option Units
  recorded_error (report_run_failed r t m ∷ calls) = some m
  recorded_error _ = none

  abbrev pub error_to_record : ReportRunExecuteResult → Option Units
  error_to_record r = elim r.storage_path [ none ↦ r.error | some p ↦ none ]

  -- The result of a run, and the calls after those before it.
  abbrev pub IsEnded : ReportRunExecuteResult → Calls → Calls → Type 0
  IsEnded r before after =
      (end_calls after ≡ suc (end_calls before))
      × (recipients_of after ≡ recipients_of before)
      × (r.ok ≡ completes after)
      × (r.storage_path ≡ completed_path after)
      × (error_to_record r ≡ recorded_error after)

  mark_failed-IsEnded :
      (row : PendingRunRow) (t : Option ReportTemplate) (m : Units) (calls : Calls)
      → let (r, after) = mark_failed answers row t m calls in IsEnded r calls after
  unfolding mark_failed end_calls recipients_of completes completed_path recorded_error
  mark_failed-IsEnded row t m calls = (refl, refl, refl, refl, refl)

  after_upload-IsEnded :
      (row : PendingRunRow) (t : ReportTemplate) (file : B) (o : Option Units) (calls : Calls)
      → let (r, after) = after_upload answers row t file o calls in IsEnded r calls after
  unfolding end_calls recipients_of completes completed_path recorded_error
  after_upload-IsEnded row t file (some m) calls = mark_failed-IsEnded row (some t) _ calls
  after_upload-IsEnded row t file none calls =
      let path = answers.build_report_output_path row in
      let made = report_run_complete row.id row.tenant_id path (answers.byte_length file) ∷ calls in
      elim (Option-cases (answers.run made)) [
        | inl e ↦ (refl, refl, rw e refl, refl, refl)
        | inr (m, e) ↦ (refl, refl, rw e refl, refl, refl)
      ]

  after_render-IsEnded :
      (row : PendingRunRow) (t : ReportTemplate) (o : Outcome B) (calls : Calls)
      → let (r, after) = after_render answers row t o calls in IsEnded r calls after
  unfolding end_calls recipients_of
  after_render-IsEnded row t (thrown m) calls = mark_failed-IsEnded row (some t) _ calls
  after_render-IsEnded row t (returned file) calls =
      let calls' =
        upload (answers.build_report_output_path row) file (mime_of row.format) ∷ calls in
      after_upload-IsEnded row t file (answers.run calls') calls'

  after_data-IsEnded :
      (row : PendingRunRow) (t : ReportTemplate) (o : Outcome (Option E)) (calls : Calls)
      → let (r, after) = after_data answers row t o calls in IsEnded r calls after
  unfolding end_calls recipients_of
  after_data-IsEnded row t (thrown m) calls = mark_failed-IsEnded row (some t) _ calls
  after_data-IsEnded row t (returned none) calls = mark_failed-IsEnded row (some t) _ calls
  after_data-IsEnded row t (returned (some e)) calls =
      let calls' = render row.format e t.data_source t.display_name_en ∷ calls in
      after_render-IsEnded row t (answers.rendered calls') calls'

  after_template-IsEnded :
      (actor : ℕ) (row : PendingRunRow) (o : Outcome (Option ReportTemplate)) (calls : Calls)
      → let (r, after) = after_template answers actor row o calls in IsEnded r calls after
  unfolding end_calls recipients_of
  after_template-IsEnded actor row (thrown m) calls = mark_failed-IsEnded row none _ calls
  after_template-IsEnded actor row (returned none) calls = mark_failed-IsEnded row none _ calls
  after_template-IsEnded actor row (returned (some t)) calls =
      let name = codes "fn_report_data_" ++ t.data_source in
      let made = report_data name actor (or_empty_object row.parameters) row.tenant_id ∷ calls in
      elim (Bool-cases (is_data_source t.data_source)) [
        | inl valid ↦ rw valid (after_data-IsEnded row t (answers.envelope made) made)
        | inr other ↦ rw other (mark_failed-IsEnded row (some t) _ calls)
      ]

  -- Whatever the calls of a report run give, exactly one of them reports its end, a completion or a
  -- failure, and it is the last; whether that call returns is not said. The result is good exactly if it
  -- is a completion that returned, and has a path exactly if it is a completion, that call's. A completion
  -- that throws is so followed by no failure: the result is bad and has the path. Where it is a failure, it
  -- reports the result's error.
  pub execute_report_run_row-IsEnded :
      (actor : ℕ) (row : PendingRunRow) (calls : Calls)
      → let (r, after) = execute_report_run_row answers actor row calls in IsEnded r calls after
  unfolding execute_report_run_row end_calls recipients_of
  execute_report_run_row-IsEnded actor row calls =
      let calls' = report_template_get_by_id actor row.report_template_id row.tenant_id ∷ calls in
      after_template-IsEnded actor row (answers.template calls') calls'

  dispatch_all-end_calls :
      (row : PendingRunRow) (t : ReportTemplate) (path : Units) (recipients : List Units)
      (calls : Calls)
      → end_calls (dispatch_all answers row t path recipients calls) ≡ end_calls calls
  unfolding dispatch_all end_calls
  dispatch_all-end_calls row t path [] calls = refl
  dispatch_all-end_calls row t path (x ∷ xs) calls =
      dispatch_all-end_calls row t path xs (notification_dispatch row t path x ∷ calls)

  deliver-end_calls :
      (row : PendingRunRow) (t : Option ReportTemplate) (path : Option Units) (calls : Calls)
      → end_calls (deliver answers row t path calls) ≡ end_calls calls
  deliver-end_calls row none path calls = refl
  deliver-end_calls row (some t) none calls = refl
  deliver-end_calls row (some t) (some []) calls = refl
  deliver-end_calls row (some t) (some (c ∷ path)) calls =
      dispatch_all-end_calls row t (c ∷ path) (recipients_to_tell t) calls

  after_execution-end_calls :
      (row : PendingRunRow) (e : ReportRunExecuteResult × Calls)
      → (recipients_of e.1 ≡ [])
      → (end_calls (after_execution answers row e) ≡ end_calls e.1)
        × ((recipients_of (after_execution answers row e) ≡ []) ⊎ (e.0.ok ≡ true))
  after_execution-end_calls row (r, calls) none_yet = elim (Bool-cases r.ok) [
    | inr failed ↦ rw failed (refl, inl none_yet)
    | inl good ↦ elim (Bool-cases (is_scheduled_run row.triggered_by)) [
      | inr by_hand ↦ rw (good, by_hand) (refl, inl none_yet)
      | inl planned ↦
          rw (good, planned) (deliver-end_calls row r.template r.storage_path calls, inr refl)
    ]
  ]

  -- Whatever the calls of a worker's run give: one call reports its end if the module is on, or that
  -- cannot be read, and none if it is off; and a recipient is written to only where the result
  -- of the run is good.
  pub process_run-end_calls :
      (row : PendingRunRow)
      → let guard = module_enabled row.tenant_id (codes "reports") ∷ [] in
        let (r, calls) = execute_report_run_row answers 0 row guard in
        (end_calls (process_run answers row)
          ≡ (if guard_passes (answers.enabled guard) then 1 else 0))
        × ((recipients_of (process_run answers row) ≡ []) ⊎ (r.ok ≡ true))
  unfolding process_run end_calls recipients_of
  process_run-end_calls row =
      let guard = module_enabled row.tenant_id (codes "reports") ∷ [] in
      let ended = execute_report_run_row answers 0 row guard in
      let (count, none_yet, _, _, _) = execute_report_run_row-IsEnded 0 row guard in
      let (same, told) = after_execution-end_calls row ended none_yet in
      elim (Bool-cases (guard_passes (answers.enabled guard))) [
        | inr off ↦ rw off (refl, inl refl)
        | inl on ↦ rw on (same ∙ count, told)
      ]
