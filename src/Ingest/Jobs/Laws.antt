-- ===== src/Ingest/Jobs/Laws.antt =====
-- src/workers/ingestion.worker.ts: how the jobs end.
use mathlib.Core.List.{append_assoc, append-nil}
use musanad_contracts_backen.Base.{
  ℕ, suc, ◌+◌, ◌≤◌, ◌≡◌, refl, sym, ap, ◌∙◌, inl, inr, String, Option, none, some, List, [], ◌∷◌,
  ◌++◌, Bool-cases, Option-cases, arith,
}
use musanad_contracts_backen.Calls.{Units, Outcome, returned, thrown, guard_passes}
use musanad_contracts_backen.Ingest.Jobs.{
  PendingVersionRow, LowConfidencePage, DocumentIngestionResult, Call, module_enabled, ingest,
  extract, ingestion_complete, ingestion_fail, review_queue_record, Answers, no_file, no_completion,
  tenant_of, present, fail_job, record_review_pages, after_extract, extract_file, process_job,
}

abbrev pub one_if_ok : Option Units → ℕ
one_if_ok none = 1
one_if_ok (some message) = 0

abbrev pub pages_if_ok : {A : Type 0} → Option Units → List A → List A
pages_if_ok none pages = pages
pages_if_ok (some message) pages = []

module _ {N : Type 0} (answers : Answers N) where
  -- How often the version was taken: the calls of `ingest` that returned.
  unfoldable pub taken : List (Call N) → ℕ
  taken [] = 0
  taken (module_enabled t k ∷ calls) = taken calls
  taken (ingest v t ∷ calls) = taken calls + one_if_ok (answers.run (ingest v t ∷ calls))
  taken (extract r u m t ∷ calls) = taken calls
  taken (ingestion_complete v t r ∷ calls) = taken calls
  taken (ingestion_fail v t m ∷ calls) = taken calls
  taken (review_queue_record v t p ∷ calls) = taken calls

  -- How often it was ended: completions that returned, and calls to record a failure.
  unfoldable pub ended : List (Call N) → ℕ
  ended [] = 0
  ended (module_enabled t k ∷ calls) = ended calls
  ended (ingest v t ∷ calls) = ended calls
  ended (extract r u m t ∷ calls) = ended calls
  ended (ingestion_complete v t r ∷ calls) =
      ended calls + one_if_ok (answers.run (ingestion_complete v t r ∷ calls))
  ended (ingestion_fail v t m ∷ calls) = suc (ended calls)
  ended (review_queue_record v t p ∷ calls) = ended calls

  -- The pages that completed extractions ask to review.
  unfoldable pub wanted : List (Call N) → List (LowConfidencePage N)
  wanted [] = []
  wanted (module_enabled t k ∷ calls) = wanted calls
  wanted (ingest v t ∷ calls) = wanted calls
  wanted (extract r u m t ∷ calls) = wanted calls
  wanted (ingestion_complete v t r ∷ calls) =
      wanted calls
      ++ pages_if_ok (answers.run (ingestion_complete v t r ∷ calls)) r.low_confidence_pages
  wanted (ingestion_fail v t m ∷ calls) = wanted calls
  wanted (review_queue_record v t p ∷ calls) = wanted calls

  -- The pages that were handed to the review queue, oldest first.
  unfoldable pub recorded : List (Call N) → List (LowConfidencePage N)
  recorded [] = []
  recorded (module_enabled t k ∷ calls) = recorded calls
  recorded (ingest v t ∷ calls) = recorded calls
  recorded (extract r u m t ∷ calls) = recorded calls
  recorded (ingestion_complete v t r ∷ calls) = recorded calls
  recorded (ingestion_fail v t m ∷ calls) = recorded calls
  recorded (review_queue_record v t p ∷ calls) = recorded calls ++ (p ∷ [])

  -- The calls of a job are balanced.
  abbrev pub IsBalanced : List (Call N) → Type 0
  IsBalanced calls =
      (taken calls ≡ ended calls) × (taken calls ≤ 1) × (recorded calls ≡ wanted calls)

  record_review_pages-counts :
      (v : ℕ) (t : String) (pages : List (LowConfidencePage N)) (calls : List (Call N))
      → let after = record_review_pages answers v t pages calls in
        (taken after ≡ taken calls)
        × (ended after ≡ ended calls)
        × (wanted after ≡ wanted calls)
        × (recorded after ≡ recorded calls ++ pages)
  unfolding record_review_pages taken ended wanted recorded
  record_review_pages-counts v t [] calls = (refl, refl, refl, sym (append-nil (recorded calls)))
  record_review_pages-counts v t (p ∷ pages) calls =
      let (a, b, c, d) = record_review_pages-counts v t pages (review_queue_record v t p ∷ calls) in
      (a, b, c, d ∙ append_assoc (recorded calls) (p ∷ []) pages)

  -- A version that was taken once and not ended yet, with no page wanted.
  abbrev IsOpen : List (Call N) → Type 0
  IsOpen calls = (taken calls ≡ 1) × (ended calls ≡ 0) × (recorded calls ≡ []) × (wanted calls ≡ [])

  fail_job-IsBalanced :
      (v : ℕ) (t : String) (m : Units) (calls : List (Call N))
      → IsOpen calls
      → IsBalanced (fail_job answers v t m calls)
  unfolding fail_job taken ended wanted recorded
  fail_job-IsBalanced v t m calls (a, b, c, d) = (cc, omega (arith, a), c ∙ sym d)

  record_review_pages-IsBalanced :
      (v : ℕ) (t : String) (pages : List (LowConfidencePage N)) (calls : List (Call N))
      → (taken calls ≡ 1) × (ended calls ≡ 1) × (recorded calls ≡ []) × (wanted calls ≡ pages)
      → IsBalanced (record_review_pages answers v t pages calls)
  record_review_pages-IsBalanced v t pages calls (a, b, c, d) =
      let (ta, en, wa, re) = record_review_pages-counts v t pages calls in
      (cc, omega (arith, ta, a), re ∙ ap (λ ps. ps ++ pages) c ∙ sym d ∙ sym wa)

  after_extract-IsBalanced :
      (row : PendingVersionRow) (o : Outcome (DocumentIngestionResult N)) (calls : List (Call N))
      → IsOpen calls
      → IsBalanced (after_extract answers row o calls)
  unfolding taken ended wanted recorded
  after_extract-IsBalanced row (thrown m) calls h =
      fail_job-IsBalanced row.id (tenant_of row) m calls h
  after_extract-IsBalanced row (returned r) calls (a, b, c, d) =
      let made = ingestion_complete row.id (tenant_of row) r ∷ calls in
      elim (Option-cases (answers.run made)) [
        | inl e ↦ rw e (
            record_review_pages-IsBalanced row.id (tenant_of row) r.low_confidence_pages made
              (a, rw (b, e) refl, c, rw (d, e) refl))
        | inr (m, e) ↦ rw e (
            fail_job-IsBalanced row.id (tenant_of row) no_completion made
              (a, rw (b, e) refl, c, rw (d, e) refl))
      ]

  extract_file-IsBalanced :
      (row : PendingVersionRow) (uri mime : Option String) (calls : List (Call N))
      → IsOpen calls
      → IsBalanced (extract_file answers row uri mime calls)
  unfolding taken ended wanted recorded
  extract_file-IsBalanced row (some uri) (some mime) calls h =
      after_extract-IsBalanced row
        (answers.extraction (extract row uri mime (tenant_of row) ∷ calls))
        (extract row uri mime (tenant_of row) ∷ calls) h
  extract_file-IsBalanced row none mime calls h =
      fail_job-IsBalanced row.id (tenant_of row) no_file calls h
  extract_file-IsBalanced row (some uri) none calls h =
      fail_job-IsBalanced row.id (tenant_of row) no_file calls h

  -- Whatever the calls of a job give: a version that the job took is ended exactly once, by a
  -- completion that returned or by a call that records its failure, and none is ended that was not
  -- taken; and the pages handed to the review queue are, in order, those of the completed extraction.
  pub process_job-IsBalanced : (row : PendingVersionRow) → IsBalanced (process_job answers row)
  unfolding process_job taken ended wanted recorded
  process_job-IsBalanced row =
      let guard = module_enabled (tenant_of row) "impact_signals" ∷ [] in
      let made = ingest row.id (tenant_of row) ∷ guard in
      elim (Bool-cases (guard_passes (answers.enabled guard))) [
        | inr off ↦ rw off (refl, omega arith, refl)
        | inl on ↦ elim (Option-cases (answers.run made)) [
          | inl e ↦
              rw (on, e)
                (extract_file-IsBalanced row (present row.file_uri) (present row.file_mime) made
                  (rw e refl, refl, refl, refl))
          | inr (m, e) ↦ rw (on, e) (rw e refl, rw e (omega arith), refl)
        ]
      ]
