-- ===== src/Ingest/Tests.antt =====
-- src/workers/ingestion.worker.ts, src/workers/source-fetch.worker.ts and
-- src/workers/source-health.worker.ts: runs on concrete values.
use musanad_contracts_backen.Base.{
  ℕ, ◌≡◌, refl, Bool, true, false, none, some, List, [], ◌∷◌, codes, ◌==◌, if◌then◌else◌,
}
use musanad_contracts_backen.Js.{Fields, nil, end}
use musanad_contracts_backen.Calls.{Outcome, returned, thrown, guard_passes}
use musanad_contracts_backen.Ingest.Jobs.{
  PendingVersionRow, pending_human, module_enabled, ingest, ingestion_fail, Answers, no_file,
  process_job, fail_job,
}
use musanad_contracts_backen.Ingest.Jobs.Laws.{IsBalanced, process_job-IsBalanced}
use musanad_contracts_backen.Ingest.Feeds.{
  DueSourceRow, NormalisedSignal, gdelt, build_adapter_for_row,
}
use musanad_contracts_backen.Ingest.Health.{failing, run_health_check_for_source}

abbrev version : PendingVersionRow
version = record {
  id = 9;
  contract_id = 3;
  version_number = 1;
  file_uri = some "uri";
  file_mime = some "";
  tenant_id = none;
  ingestion_attempt_count = 0;
}

-- The guard throws, so that the work goes on; all else returns.
abbrev calm : Answers ℕ
calm = record {
  enabled = λ calls. thrown [];
  run = λ calls. none;
  extraction = λ calls. returned (record {
    extracted_text = "text";
    extracted_text_uri = "txt";
    page_count = 1;
    ocr_used = true;
    ocr_confidence_avg = some 60;
    extraction_engine = "tesseract";
    low_confidence_pages =
        record {
          page_no = 1;
          tesseract_confidence = some 60;
          tesseract_text = some "t";
          gpt4o_text = none;
          gpt4o_used = false;
          initial_review_status = pending_human;
        }
        ∷ [];
  });
}

-- A type that is the empty text counts as none.
job_tests :
    process_job calm version
    ≡ ingestion_fail 9 "00000000-0000-0000-0000-000000000001" no_file
      ∷ ingest 9 "00000000-0000-0000-0000-000000000001"
      ∷ module_enabled "00000000-0000-0000-0000-000000000001" "impact_signals"
      ∷ []
unfolding process_job fail_job guard_passes
job_tests = refl

process_job-IsBalanced_example :
    IsBalanced calm (process_job calm (record version { file_mime = some "application/pdf" }))
process_job-IsBalanced_example =
    process_job-IsBalanced calm (record version { file_mime = some "application/pdf" })

abbrev feed_row : DueSourceRow
feed_row = record { id = 2; tenant_id = "t"; source_id = "rss_gulf"; url = some "u" }

abbrev port_signal : NormalisedSignal ℕ
port_signal = record {
  source_id = "rss_gulf";
  source_reliability = 3;
  fetched_at = some "2026-01-01T00:00:00.000Z";
  event_date = none;
  kind = "shipping";
  title = "Port closed";
  summary = none;
  geographies = nil;
  affected_entities = nil;
  severity = "high";
  confidence = 70;
  url = some "";
  raw_payload = end;
  dedup_hash = "h";
}

-- Raw signals are numbers; 1 cannot be normalised.
abbrev normalise_some : ℕ → Outcome (NormalisedSignal ℕ)
normalise_some n = if n == 1 then thrown [] else returned port_signal

-- The second upsert throws.
abbrev upsert_once : List (Fields ℕ) → Outcome Bool
upsert_once (p ∷ []) = returned true
upsert_once _ = thrown []

fetch_tests :
    (build_adapter_for_row (record feed_row { source_id = "gdelt_v2" }) ≡ some gdelt)
    × (build_adapter_for_row (record feed_row { url = some "" }) ≡ none)
    × (run_health_check_for_source
          (thrown [])
          (record feed_row { url = none })
          (thrown [])
          (returned (some 4))
        ≡ some (record {
          source = 2;
          state = failing;
          error_msg = some (codes "adapter_not_implemented");
          signals_24h = 4;
        }))
unfolding build_adapter_for_row run_health_check_for_source guard_passes
fetch_tests = (refl, refl, refl)
