-- ===== src/Migrate/Runner/Records.antt =====
-- src/database/migrate.ts: a run of `runUp` that returns has recorded every file, and another run
-- does nothing.
use mathlib.Core.Path.{subst}
use musanad_contracts_backen.Base.{
  ℕ, ◌≡◌, refl, sym, ap, ◌∙◌, inl, inr, Bool, true, false, Option, none, some, List, [], ◌∷◌,
  Bool-cases,
}
use musanad_contracts_backen.Js.Laws.{All}
use musanad_contracts_backen.Migrate.Split.{split_statements}
use musanad_contracts_backen.Migrate.Markers.{strip_rollback_section}
use musanad_contracts_backen.Migrate.Runner.{
  Database, MigrationFile, begin_sql, commit_sql, has_version, pending_files, and_then, or_rollback,
  run_statements, apply_statements, apply_sql_body, record_version, apply_text, run_pending,
  up_from, run_up,
}

-- What a database promises of the table of versions: a call that returns keeps the rows, but for
-- statements that are not harmless, and an INSERT that returns adds its row.
pub record Recording (D : Database) : Type 1 where
  pub IsHarmless : List ℕ → Type 0
  pub begin_harmless : IsHarmless begin_sql
  pub commit_harmless : IsHarmless commit_sql
  pub connect_keeps :
      (s : D.State) (v : ℕ)
      → has_version (D.versions s) v ≡ true
      → has_version (D.versions (D.connect s).0) v ≡ true
  pub query_keeps :
      (q : List ℕ) (s : D.State) (v : ℕ)
      → IsHarmless q
      → (D.query q s).1 ≡ true
      → has_version (D.versions s) v ≡ true
      → has_version (D.versions (D.query q s).0) v ≡ true
  pub insert_keeps :
      (w : ℕ) (s : D.State) (v : ℕ)
      → has_version (D.versions s) v ≡ true
      → has_version (D.versions (D.insert_row w s).0) v ≡ true
  pub insert_adds :
      (v : ℕ) (s : D.State)
      → (D.insert_row v s).1 ≡ true
      → has_version (D.versions (D.insert_row v s).0) v ≡ true

and_then-true {ℓ} :
    {A : Type ℓ} (r : A × Bool) (f : A → A × Bool)
    → (and_then r f).1 ≡ true
    → (r.1 ≡ true) × (and_then r f ≡ f r.0)
and_then-true (s, true) f h = (refl, refl)
and_then-true (s, false) f h = absurd (cc)

and_then_on {ℓ} : {A : Type ℓ} (r : A × Bool) (f : A → A × Bool) → r.1 ≡ true → and_then r f ≡ f r.0
and_then_on (s, true) f h = refl
and_then_on (s, false) f h = absurd (cc)

-- What is not pending is applied.
pending_files-All :
    (Q : MigrationFile → Type 0) (applied : List ℕ) (files : List MigrationFile)
    → ((m : MigrationFile) → has_version applied m.version ≡ true → Q m)
    → All Q (pending_files applied files)
    → All Q files
pending_files-All Q applied [] f h = tt
pending_files-All Q applied (m ∷ ms) f h = elim (Bool-cases (has_version applied m.version)) [
  | inl e ↦ (f m e, pending_files-All Q applied ms f (rw e at h))
  | inr e ↦
      let k : Q m × All Q (pending_files applied ms) = rw e at h in
      (k.0, pending_files-All Q applied ms f k.1)
]

All-pending :
    (Q : MigrationFile → Type 0) (applied : List ℕ) (files : List MigrationFile)
    → All Q files
    → All Q (pending_files applied files)
All-pending Q applied [] h = tt
All-pending Q applied (m ∷ ms) (q, h) = elim (Bool-cases (has_version applied m.version)) [
  | inl e ↦ rw e (All-pending Q applied ms h)
  | inr e ↦ rw e (q, All-pending Q applied ms h)
]

pending_none :
    (applied : List ℕ) (files : List MigrationFile)
    → All (λ m. has_version applied m.version ≡ true) files
    → pending_files applied files ≡ []
pending_none applied [] h = refl
pending_none applied (m ∷ ms) (e, h) = rw e (pending_none applied ms h)

module _ (D : Database) where
  open D use {State, query, connect, ensure_table, versions, reads, insert_row}

  -- A version is in the table.
  abbrev pub Recorded : State → ℕ → Type 0
  Recorded s v = has_version (versions s) v ≡ true

  or_rollback-true :
      (r : State × Bool) (f : State → State × Bool)
      → (or_rollback D r f).1 ≡ true
      → (r.1 ≡ true) × (or_rollback D r f ≡ f r.0)
  or_rollback-true (s, true) f h = (refl, refl)
  or_rollback-true (s, false) f h = absurd (cc)

  -- Where every file is recorded, `runUp` makes sure that the table exists and does nothing else.
  pub run_up-up_to_date :
      (files : List MigrationFile) (s : State)
      → (ensure_table s).1 ≡ true
      → reads (ensure_table s).0 ≡ true
      → All (λ m. Recorded (ensure_table s).0 m.version) files
      → run_up D files s ≡ ((ensure_table s).0, true)
  unfolding run_up run_pending
  run_up-up_to_date files s e r h =
      and_then_on (ensure_table s) (up_from D files) e
      ∙ rw r (ap (λ ms. run_pending D ms (ensure_table s).0) (pending_none _ files h))

  module _ (R : Recording D) where
    open R use {
      IsHarmless, begin_harmless, commit_harmless, connect_keeps, query_keeps, insert_keeps,
      insert_adds,
    }

    run_statements-keeps :
        (qs : List (List ℕ)) (s : State) (v : ℕ)
        → All IsHarmless qs
        → (run_statements D qs s).1 ≡ true
        → Recorded s v
        → Recorded (run_statements D qs s).0 v
    unfolding run_statements
    run_statements-keeps [] s v h e r = query_keeps commit_sql s v commit_harmless e r
    run_statements-keeps (q ∷ qs) s v (o, h) e r =
        let (ok, same) = or_rollback-true (query q s) (run_statements D qs) e in
        let e' : (run_statements D qs (query q s).0).1 ≡ true = sym (ap (λ x. x.1) same) ∙ e in
        subst (λ x. Recorded x.0 v) (sym same)
          (run_statements-keeps qs (query q s).0 v h e' (query_keeps q s v o ok r))

    apply_statements-keeps :
        (qs : List (List ℕ)) (s : State) (v : ℕ)
        → All IsHarmless qs
        → (apply_statements D qs s).1 ≡ true
        → Recorded s v
        → Recorded (apply_statements D qs s).0 v
    apply_statements-keeps [] s v h e r = r
    apply_statements-keeps (q ∷ qs) s v h e r =
        let run = λ (t : State). and_then (query begin_sql t) (run_statements D (q ∷ qs)) in
        let (ok, same) = and_then-true (connect s) run e in
        let e' : (run (connect s).0).1 ≡ true = sym (ap (λ x. x.1) same) ∙ e in
        let (ok', same') =
          and_then-true (query begin_sql (connect s).0) (run_statements D (q ∷ qs)) e' in
        let e2 : (run_statements D (q ∷ qs) (query begin_sql (connect s).0).0).1 ≡ true =
          sym (ap (λ x. x.1) same') ∙ e' in
        subst (λ x. Recorded x.0 v) (sym (same ∙ same'))
          (run_statements-keeps (q ∷ qs) _ v h e2
            (query_keeps begin_sql _ v begin_harmless ok' (connect_keeps s v r)))

    -- The statements of the migration that the file holds are harmless.
    abbrev pub IsHarmlessFile : MigrationFile → Type 0
    IsHarmlessFile m =
        (text : List ℕ)
        → m.text ≡ some text
        → All IsHarmless (split_statements (strip_rollback_section text))

    record_version-records :
        (v w : ℕ) (s : State)
        → (record_version D v s).1 ≡ true
        → Recorded (record_version D v s).0 v × (Recorded s w → Recorded (record_version D v s).0 w)
    record_version-records v w s e = elim (Bool-cases (reads s)) [
      | inr n ↦ absurd (cc (rw n at e))
      | inl y ↦ elim (Bool-cases (has_version (versions s) v)) [
        | inl p ↦ rw (y, p) (p, λ r. r)
        | inr p ↦ rw (y, p) (insert_adds v s (rw p at (rw y at e)), insert_keeps v s w)
      ]
    ]

    apply_text-records :
        (v w : ℕ) (text : Option (List ℕ)) (s : State)
        → ((t : List ℕ)
            → text ≡ some t
            → All IsHarmless (split_statements (strip_rollback_section t)))
        → (apply_text D v text s).1 ≡ true
        → Recorded (apply_text D v text s).0 v
          × (Recorded s w → Recorded (apply_text D v text s).0 w)
    unfolding apply_sql_body
    apply_text-records v w none s h e = absurd (cc)
    apply_text-records v w (some t) s h e =
        let body = apply_sql_body D (strip_rollback_section t) s in
        let (ok, same) = and_then-true body (record_version D v) e in
        let e' : (record_version D v body.0).1 ≡ true = sym (ap (λ x. x.1) same) ∙ e in
        let (mine, others) = record_version-records v w body.0 e' in
        (
          subst (λ x. Recorded x.0 v) (sym same) mine,
          λ r.
              subst (λ x. Recorded x.0 w) (sym same)
                (others (
                  apply_statements-keeps (split_statements (strip_rollback_section t)) s w
                    (h t refl) ok r)),
        )

    run_pending-keeps :
        (ms : List MigrationFile) (s : State) (v : ℕ)
        → All IsHarmlessFile ms
        → (run_pending D ms s).1 ≡ true
        → Recorded s v
        → Recorded (run_pending D ms s).0 v
    unfolding run_pending
    run_pending-keeps [] s v h e r = r
    run_pending-keeps (m ∷ ms) s v (o, h) e r =
        let one = apply_text D m.version m.text s in
        let (ok, same) = and_then-true one (run_pending D ms) e in
        let e' : (run_pending D ms one.0).1 ≡ true = sym (ap (λ x. x.1) same) ∙ e in
        subst (λ x. Recorded x.0 v) (sym same)
          (run_pending-keeps ms one.0 v h e' ((apply_text-records m.version v m.text s o ok).1 r))

    run_pending-records :
        (ms : List MigrationFile) (s : State)
        → All IsHarmlessFile ms
        → (run_pending D ms s).1 ≡ true
        → All (λ m. Recorded (run_pending D ms s).0 m.version) ms
    unfolding run_pending
    run_pending-records [] s h e = tt
    run_pending-records (m ∷ ms) s (o, h) e =
        let one = apply_text D m.version m.text s in
        let (ok, same) = and_then-true one (run_pending D ms) e in
        let e' : (run_pending D ms one.0).1 ≡ true = sym (ap (λ x. x.1) same) ∙ e in
        let mine = (apply_text-records m.version 0 m.text s o ok).0 in
        subst (λ x. All (λ k. Recorded x.0 k.version) (m ∷ ms)) (sym same)
          (run_pending-keeps ms one.0 m.version h e' mine, run_pending-records ms one.0 h e')

    up_from-records :
        (files : List MigrationFile) (s : State)
        → All IsHarmlessFile files
        → (up_from D files s).1 ≡ true
        → All (λ m. Recorded (up_from D files s).0 m.version) files
    up_from-records files s h e = elim (Bool-cases (reads s)) [
      | inr n ↦ absurd (cc (rw n at e))
      | inl y ↦
          let e' : (run_pending D (pending_files (versions s) files) s).1 ≡ true = rw y at e in
          let h' = All-pending IsHarmlessFile (versions s) files h in
          rw y (
            pending_files-All
              (λ m. Recorded (run_pending D (pending_files (versions s) files) s).0 m.version)
              (versions s) files
              (λ m r. run_pending-keeps (pending_files (versions s) files) s m.version h' e' r)
              (run_pending-records (pending_files (versions s) files) s h' e'))
    ]

    -- A run of `runUp` that returns has recorded the version of every file, where no migration
    -- takes rows out of the table of versions.
    pub run_up-records :
        (files : List MigrationFile) (s : State)
        → All IsHarmlessFile files
        → (run_up D files s).1 ≡ true
        → All (λ m. Recorded (run_up D files s).0 m.version) files
    unfolding run_up
    run_up-records files s h e =
        let (ok, same) = and_then-true (ensure_table s) (up_from D files) e in
        let e' : (up_from D files (ensure_table s).0).1 ≡ true = sym (ap (λ x. x.1) same) ∙ e in
        subst (λ x. All (λ m. Recorded x.0 m.version) files) (sym same)
          (up_from-records files (ensure_table s).0 h e')
