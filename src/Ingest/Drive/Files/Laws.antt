-- ===== src/Ingest/Drive/Files/Laws.antt =====
-- src/services/migration-orchestrator.service.ts: what the way of one file reports.
use musanad_contracts_backen.Base.{
  ℕ, ◌≤◌, ◌<◌, ◌≡◌, refl, ap, inl, inr, String, Bool, true, false, Option, none, some, List, ◌∷◌,
  leb, take, arith, Option-cases, if◌then◌else◌,
}
use musanad_contracts_backen.Js.{Runtime, Fields}
use musanad_contracts_backen.Calls.{Units, Outcome, returned, thrown}
use musanad_contracts_backen.Ingest.Drive.Session.{
  Call, DriveFileMeta, Extraction, ExtractedFields, DuplicateCheck, imported, needs_review,
  record_failed, DuplicateStatus, skipped_duplicate_id, skipped_duplicate_hash, mark_duplicate,
  update_status, link_contract, flag_logical_duplicate, request_clauses, compute_risk, Answers,
  BatchContext, Session, Action, perform, attempt, ◌>>=◌,
}
use musanad_contracts_backen.Ingest.Drive.Session.Laws.{Ends, >>=-Ends, report_lem}
use musanad_contracts_backen.Ingest.Drive.Fields.{sanitise, merge_fields}
use musanad_contracts_backen.Ingest.Drive.Fields.Laws.{
  IsAllowed, contract_type_of-IsAllowed, sanitise-AllowedIfAny, merge_fields-IsAllowed,
}
use musanad_contracts_backen.Ingest.Drive.Files.{
  Verdict, on_imported, on_review, on_failed, on_skipped, no_fields, is_duplicate,
  heuristic_extract_fields, llm_fields, finish, link_and_finish, apply_fields, keep_extraction,
  after_extract, ingest_file, skip_file, download_and_ingest, process_single_file,
}

-- The calls end with the link of the contract, with a confidence of which `Q` holds, the three calls
-- that may fail, and one more.
abbrev pub EndsLinked : {N : Type 0} → ℕ → (ℕ → Type 0) → Call N → List (Call N) → Type 0
EndsLinked {N} id Q last calls =
    (contract : ℕ) × (version : ℕ) × (confidence : ℕ) × (fields : ℕ) × (rest : List (Call N))
    × (calls
        ≡ last
          ∷ compute_risk contract
          ∷ request_clauses version
          ∷ flag_logical_duplicate id
          ∷ link_contract id contract version confidence fields
          ∷ rest)
    × Q confidence

-- The last calls report the verdict on the record `id`.
abbrev pub Reports : {N : Type 0} → (id threshold : ℕ) → Verdict → List (Call N) → Type 0
Reports id threshold on_imported calls =
    EndsLinked id (λ c. threshold ≤ c) (update_status id imported none) calls
Reports id threshold on_review calls =
    EndsLinked id (λ c. c < threshold) (update_status id needs_review none) calls
Reports {N} id threshold on_failed calls =
    (m : Units) × (rest : List (Call N)) × (calls
      ≡ update_status id record_failed (some (take 500 m)) ∷ rest)
Reports {N} id threshold on_skipped calls =
    (k : DuplicateStatus) × (d : Option ℕ) × (rest : List (Call N)) × (calls
      ≡ mark_duplicate id k d ∷ rest)

module _ (R : Runtime) (to_lower : String → String) (lower_units : Units → Units)
    (patterns : String → String → ExtractedFields R.Num) (sha256 : Units → String)
    (answers : Answers R.Num) (ctx : BatchContext) where
  -- Whatever the model answers, and also where it fails, the contract gets a type, and one of the
  -- fourteen that the table of contracts takes.
  pub merged_type-IsAllowed :
      (o : Outcome (Fields R.Num)) (text name : String)
      → (t : String) × ((merge_fields
            (llm_fields R to_lower lower_units patterns sha256 answers ctx o)
            (heuristic_extract_fields R to_lower lower_units patterns sha256 answers ctx text
              name)).contract_type
          ≡ some t)
        × IsAllowed t
  merged_type-IsAllowed (returned parsed) text name =
      merge_fields-IsAllowed (sanitise R to_lower parsed) _ _
        (sanitise-AllowedIfAny R to_lower parsed) refl (contract_type_of-IsAllowed (to_lower text))
  merged_type-IsAllowed (thrown m) text name =
      merge_fields-IsAllowed no_fields _ _ tt refl (contract_type_of-IsAllowed (to_lower text))

  finish-Reports :
      (id threshold contract version confidence fields : ℕ) (rest : List (Call R.Num)) (good : Bool)
      (s : Session R.Num) (v : Verdict)
      → leb threshold confidence ≡ good
      → s.calls
        ≡ compute_risk contract
          ∷ request_clauses version
          ∷ flag_logical_duplicate id
          ∷ link_contract id contract version confidence fields
          ∷ rest
      → (finish R to_lower lower_units patterns sha256 answers ctx id good s).0 ≡ returned v
      → Reports id threshold v
          (finish R to_lower lower_units patterns sha256 answers ctx id good s).1.calls
  unfolding finish
  finish-Reports id threshold contract version confidence fields rest true s v q c e =
      report_lem answers (Reports id threshold) (update_status id imported none) on_imported v s
        (
          contract,
          version,
          confidence,
          fields,
          rest,
          ap (λ r. update_status id imported none ∷ r) c,
          ground arith,
        )
        e
  finish-Reports id threshold contract version confidence fields rest false s v q c e =
      report_lem answers (Reports id threshold) (update_status id needs_review none) on_review v s
        (
          contract,
          version,
          confidence,
          fields,
          rest,
          ap (λ r. update_status id needs_review none ∷ r) c,
          ground arith,
        )
        e

  link_and_finish-Reports :
      (id threshold contract version confidence fields : ℕ)
      → Ends
          (link_and_finish R to_lower lower_units patterns sha256 answers ctx id threshold contract
            version confidence fields)
          (Reports id threshold)
  unfolding link_and_finish perform attempt Ends ◌>>=◌
  link_and_finish-Reports id threshold contract version confidence fields s v e =
      elim (Option-cases
        (answers.run (link_contract id contract version confidence fields ∷ s.calls))) [
          | inl h ↦ rw h (
              finish-Reports id threshold contract version confidence fields s.calls
                (leb threshold confidence)
                (record s {
                  calls =
                      compute_risk contract
                      ∷ request_clauses version
                      ∷ flag_logical_duplicate id
                      ∷ link_contract id contract version confidence fields
                      ∷ s.calls;
                })
                v refl refl (rw h at e))
          | inr (m, h) ↦ absurd (cc (rw h at e))
        ]

  apply_fields-Reports :
      (id threshold contract version : ℕ) (r : Extraction) (f : ExtractedFields R.Num)
      → Ends
          (apply_fields R to_lower lower_units patterns sha256 answers ctx id threshold contract
            version r f)
          (Reports id threshold)
  unfolding apply_fields
  apply_fields-Reports id threshold contract version r f =
      >>=-Ends _ _ (Reports id threshold) λ ours. >>=-Ends _ _ (Reports id threshold) λ theirs.
        >>=-Ends _ _ (Reports id threshold)
          λ done. link_and_finish-Reports id threshold contract version _ _

  after_extract-Reports :
      (file : DriveFileMeta) (id threshold contract version : ℕ) (uri : String)
      (o : Outcome Extraction)
      → Ends
          (after_extract R to_lower lower_units patterns sha256 answers ctx file id threshold
            contract version uri o)
          (Reports id threshold)
  unfolding after_extract keep_extraction Ends
  after_extract-Reports file id threshold contract version uri (thrown m) = λ s v e.
      report_lem answers (Reports id threshold) (update_status id record_failed (some (take 500 m)))
        on_failed v s (m, s.calls, refl) e
  after_extract-Reports file id threshold contract version uri (returned r) =
      >>=-Ends _ _ (Reports id threshold) λ saved. >>=-Ends _ _ (Reports id threshold) λ sent.
        >>=-Ends _ _ (Reports id threshold) λ closed.
          >>=-Ends _ _ (Reports id threshold) λ attached.
            >>=-Ends _ _ (Reports id threshold)
              λ parsed. apply_fields-Reports id threshold contract version r _

  skip_file-Reports :
      (id threshold : ℕ) (k : DuplicateStatus) (dup : DuplicateCheck)
      → Ends
          (skip_file R to_lower lower_units patterns sha256 answers ctx id k dup)
          (Reports id threshold)
  unfolding skip_file Ends
  skip_file-Reports id threshold k dup s v e =
      report_lem answers (Reports id threshold) (mark_duplicate id k dup.duplicate_of_record_id)
        on_skipped v s (k, dup.duplicate_of_record_id, s.calls, refl) e

  ingest_file-Reports :
      (file : DriveFileMeta) (id threshold : ℕ) (content : Units)
      → Ends
          (ingest_file R to_lower lower_units patterns sha256 answers ctx file id threshold content)
          (Reports id threshold)
  unfolding ingest_file
  ingest_file-Reports file id threshold content = >>=-Ends _ _ (Reports id threshold) λ started.
      >>=-Ends _ _ (Reports id threshold) λ uri. >>=-Ends _ _ (Reports id threshold) λ created.
        >>=-Ends _ _ (Reports id threshold)
          λ r. after_extract-Reports file id threshold created.0 created.1 uri r

  either-Ends :
      (b : Bool) (P : Verdict → List (Call R.Num) → Type 0) (m n : Action R.Num Verdict)
      → Ends m P
      → Ends n P
      → Ends (if b then m else n) P
  either-Ends true P m n hm hn = hm
  either-Ends false P m n hm hn = hn

  download_and_ingest-Reports :
      (file : DriveFileMeta) (id threshold : ℕ)
      → Ends
          (download_and_ingest R to_lower lower_units patterns sha256 answers ctx file id threshold)
          (Reports id threshold)
  unfolding download_and_ingest
  download_and_ingest-Reports file id threshold = >>=-Ends _ _ (Reports id threshold) λ started.
      >>=-Ends _ _ (Reports id threshold) λ token. >>=-Ends _ _ (Reports id threshold) λ content.
        >>=-Ends _ _ (Reports id threshold) λ hashed. >>=-Ends _ _ (Reports id threshold) λ dup.
          either-Ends (is_duplicate "hash_match" id dup) (Reports id threshold) _ _
            (skip_file-Reports id threshold skipped_duplicate_hash dup)
            (ingest_file-Reports file id threshold content)

  -- Where the way of a file returns, its last calls report what is counted: a file counted as imported
  -- has its contract linked with a confidence that reaches the threshold and its record set to
  -- `imported`; one for review, with a lower confidence and `needs_review`; a failed one has its record
  -- set to `failed`; a skipped one is marked as a duplicate.
  pub process_single_file-Reports :
      (file : DriveFileMeta) (id threshold : ℕ) (s : Session R.Num) (v : Verdict)
      → (process_single_file R to_lower lower_units patterns sha256 answers ctx file id threshold
          s).0
        ≡ returned v
      → Reports id threshold v
          (process_single_file R to_lower lower_units patterns sha256 answers ctx file id threshold
            s).1.calls
  unfolding process_single_file Ends
  process_single_file-Reports file id threshold = >>=-Ends _ _ (Reports id threshold) λ dup.
      either-Ends (is_duplicate "id_match" id dup) (Reports id threshold) _ _
        (skip_file-Reports id threshold skipped_duplicate_id dup)
        (download_and_ingest-Reports file id threshold)
