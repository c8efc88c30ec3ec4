-- ===== src/Ingest/Drive/Batch/Laws.antt =====
-- src/services/migration-orchestrator.service.ts: what a batch counts and how it ends.
use musanad_contracts_backen.Base.{
  zero, ℕ, suc, ◌+◌, ◌≡◌, refl, sym, ◌∙◌, inl, inr, String, none, some, List, [], ◌∷◌, take, arith,
  ◌==◌, ℕ-cases, if◌then◌else◌,
}
use musanad_contracts_backen.Js.{Runtime}
use musanad_contracts_backen.Calls.{Units, Outcome, returned, thrown}
use musanad_contracts_backen.Ingest.Drive.Session.{
  BatchStatus, completed, completed_with_errors, Call, DriveFileMeta, ExtractedFields,
  touch_connection, set_batch_status, update_status, record_failed, update_counts, Counts, Answers,
  BatchContext, Session, Action, pure, follow, perform, attempt, ◌>>=◌, ◌>>◌,
}
use mathlib.Core.Path.{subst}
use musanad_contracts_backen.Ingest.Drive.Session.Laws.{returned-inj}
use musanad_contracts_backen.Ingest.Drive.Files.{
  Verdict, on_imported, on_review, on_failed, on_skipped, process_single_file,
}
use musanad_contracts_backen.Ingest.Drive.Batch.{
  record_of, tally, count_file, process_file, process_files,
}

abbrev pub total : Counts → ℕ
total c = c.imported_files + c.review_files + c.failed_files + c.skipped_files

total-tally : (v : Verdict) (c : Counts) → total (tally v c) ≡ suc (total c)
total-tally on_imported c = omega arith
total-tally on_review c = omega arith
total-tally on_failed c = omega arith
total-tally on_skipped c = omega arith

-- How many of the files have a record.
abbrev pub with_record : List DriveFileMeta → List (String × ℕ) → ℕ
with_record [] records = 0
with_record (f ∷ files) records =
    let rest = with_record files records in if record_of f.id records == 0 then rest else suc rest

abbrev pub NeverThrows : {N : Type 0} → Answers N → Type 0
NeverThrows {N} answers = (calls : List (Call N)) → answers.run calls ≡ none

module _ (R : Runtime) (to_lower : String → String) (lower_units : Units → Units)
    (patterns : String → String → ExtractedFields R.Num) (sha256 : Units → String)
    (answers : Answers R.Num) (ctx : BatchContext) where
  -- What a step gives: a value of which `P` holds.
  abbrev pub Gives : {A : Type 0} → (A → Type 0) → Outcome A × Session R.Num → Type 0
  Gives {A} P r = (a : A) × (r.0 ≡ returned a) × P a

  perform-Gives :
      NeverThrows answers
      → (c : Call R.Num) {A : Type 0} (k : Action R.Num A) (P : A → Type 0) (s : Session R.Num)
      → ((t : Session R.Num) → Gives P (k t))
      → Gives P ((perform answers c >> k) s)
  unfolding perform ◌>>=◌
  perform-Gives never c k P s h = rw (never (c ∷ s.calls)) (h _)

  follow-Gives :
      {A B : Type 0} (k : A → Action R.Num B) (P : A → Type 0) (Q : B → Type 0) (r : Outcome A)
      (s : Session R.Num)
      → Gives P (r, s)
      → ((a : A) (t : Session R.Num) → P a → Gives Q (k a t))
      → Gives Q (follow k (r, s))
  follow-Gives k P Q (returned a) s (b, e, p) h = h a s (subst P (sym (returned-inj a b e)) p)
  follow-Gives k P Q (thrown m) s (b, e, p) h = absurd cc

  >>=-Gives :
      {A B : Type 0} (m : Action R.Num A) (k : A → Action R.Num B) (P : A → Type 0) (Q : B → Type 0)
      (s : Session R.Num)
      → Gives P (m s)
      → ((a : A) (t : Session R.Num) → P a → Gives Q (k a t))
      → Gives Q ((m >>= k) s)
  unfolding ◌>>=◌
  >>=-Gives m k P Q s g h = follow-Gives k P Q (m s).0 (m s).1 g h

  count_file-Gives :
      NeverThrows answers
      → (id : ℕ) (c : Counts) (r : Outcome Verdict) (s : Session R.Num)
      → Gives
          (λ c'. total c' ≡ suc (total c))
          (count_file R to_lower lower_units patterns sha256 answers ctx id c r s)
  count_file-Gives never id c (returned v) s = (tally v c, refl, total-tally v c)
  count_file-Gives never id c (thrown m) s =
      perform-Gives never (update_status id record_failed (some (take 500 m)))
        (pure (tally on_failed c)) (λ c'. total c' ≡ suc (total c)) s
        (λ t. (tally on_failed c, refl, total-tally on_failed c))

  process_file-Gives :
      NeverThrows answers
      → (f : DriveFileMeta) (id threshold : ℕ) (c : Counts) (s : Session R.Num)
      → Gives
          (λ c'. total c' ≡ suc (total c))
          (process_file R to_lower lower_units patterns sha256 answers ctx f id threshold c s)
  unfolding process_file attempt
  process_file-Gives never f id threshold c s =
      let way =
        process_single_file R to_lower lower_units patterns sha256 answers ctx f id threshold in
      >>=-Gives (attempt way) _ (λ r. Unit {0}) _ s ((way s).0, refl, tt)
        (λ r t u.
          >>=-Gives (count_file R to_lower lower_units patterns sha256 answers ctx id c r) _
            (λ c'. total c' ≡ suc (total c)) _ t (count_file-Gives never id c r t)
            (λ c' t' e.
              perform-Gives never (update_counts c') (pure c') (λ c'. total c' ≡ suc (total c)) t'
                (λ t''. (c', refl, e))))

  -- Where the calls that only write do not throw, the loop over the files comes to its end whatever
  -- the ways of the single files do, their exceptions included, and it has counted each file that has a
  -- record exactly once.
  pub process_files-counts :
      NeverThrows answers
      → (files : List DriveFileMeta) (records : List (String × ℕ)) (threshold : ℕ) (c : Counts)
        (s : Session R.Num)
      → Gives
          (λ c'. total c' ≡ total c + with_record files records)
          (process_files R to_lower lower_units patterns sha256 answers ctx files records threshold
            c s)
  unfolding process_files
  process_files-counts never [] records threshold c s = (c, refl, omega arith)
  process_files-counts never (f ∷ files) records threshold c s =
      elim (ℕ-cases (record_of f.id records)) [
        | inl e ↦
            let (d, q, r) = process_files-counts never files records threshold c s in
            rw (process_files, e) (d, q, r ∙ ground (arith, e))
        | inr (n, e) ↦
            rw (process_files, e)
              (>>=-Gives
                (process_file R to_lower lower_units patterns sha256 answers ctx f (suc n) threshold
                  c)
                _ (λ c'. total c' ≡ suc (total c)) _ s
                (process_file-Gives never f (suc n) threshold c s)
                (λ c' t p.
                  let (d, q, r) = process_files-counts never files records threshold c' t in
                  (d, q, ground (arith, p, r, e))))
      ]

  -- The status for a number of failed files.
  abbrev pub status_for : ℕ → BatchStatus
  status_for zero = completed
  status_for (suc n) = completed_with_errors

  -- The calls of a batch that returned end with its final status and the mark on its connection.
  abbrev pub EndsWith : Counts → List (Call R.Num) → Type 0
  EndsWith c calls =
      (rest : List (Call R.Num)) × (calls
        ≡ touch_connection ∷ set_batch_status (status_for c.failed_files) ∷ rest)
