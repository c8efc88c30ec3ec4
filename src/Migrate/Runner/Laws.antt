-- ===== src/Migrate/Runner/Laws.antt =====
-- src/database/migrate.ts: a body is applied as a whole or not at all, and a run that returns has
-- recorded every file.
use musanad_contracts_backen.Base.{
  ℕ, ◌≡◌, refl, ◌∙◌, ◌⊎◌, inl, inr, Bool, true, false, List, [], ◌∷◌,
}
use musanad_contracts_backen.Js.Laws.{All}
use musanad_contracts_backen.Migrate.Split.{split_statements}
use musanad_contracts_backen.Migrate.Runner.{
  Database, begin_sql, commit_sql, rollback_sql, and_then, or_rollback, run_statements,
  apply_statements, apply_sql_body,
}

-- What a database promises of transactions: `committed` is what other sessions see. A statement is
-- ordinary if it does not end the transaction; the others are BEGIN, COMMIT and their like.
pub record Transactional (D : Database) : Type 1 where
  pub View : Type 0
  pub committed : D.State → View
  pub InTransaction : D.State → Type 0
  pub IsOrdinary : List ℕ → Type 0
  pub connect_committed : (s : D.State) → committed (D.connect s).0 ≡ committed s
  pub begin_committed : (s : D.State) → committed (D.query begin_sql s).0 ≡ committed s
  pub begin_opens :
      (s : D.State) → (D.query begin_sql s).1 ≡ true → InTransaction (D.query begin_sql s).0
  pub ordinary_committed :
      (q : List ℕ) (s : D.State)
      → IsOrdinary q
      → InTransaction s
      → committed (D.query q s).0 ≡ committed s
  pub ordinary_stays :
      (q : List ℕ) (s : D.State) → IsOrdinary q → InTransaction s → InTransaction (D.query q s).0
  pub rollback_committed :
      (s : D.State) → InTransaction s → committed (D.query rollback_sql s).0 ≡ committed s

module _ (D : Database) (T : Transactional D) where
  open D use {State, query, connect}
  open T use {
    committed, InTransaction, IsOrdinary, connect_committed, begin_committed, begin_opens,
    ordinary_committed, ordinary_stays, rollback_committed,
  }

  -- It threw, and others see what they saw at `s`.
  abbrev pub Undone : State → State × Bool → Type 0
  Undone s r = (r.1 ≡ false) × (committed r.0 ≡ committed s)

  -- What becomes of the statements from `t` on, in the transaction that began behind `s`: each in turn
  -- returns, up to the last, and the result is that of the COMMIT that follows, at which others still see
  -- what they saw at `s`; or one throws, and all is undone.
  unfoldable pub Ran : State → List (List ℕ) → State → State × Bool → Type 0
  Ran s [] t r = InTransaction t × (committed t ≡ committed s) × (r ≡ query commit_sql t)
  Ran s (q ∷ qs) t r =
      (((query q t).1 ≡ true) × Ran s qs (query q t).0 r) ⊎ (((query q t).1 ≡ false) × Undone s r)

  -- The same for a whole body: it has no statement, or the connection or BEGIN throws, and all is as
  -- before; or both return, and the statements run.
  abbrev pub AllOrNothing : State → List (List ℕ) → State × Bool → Type 0
  AllOrNothing s qs r =
      let t = (connect s).0 in
      let u = query begin_sql t in
      ((qs ≡ []) × Undone s r)
      ⊎ (((connect s).1 ≡ false) × Undone s r)
      ⊎ (((connect s).1 ≡ true) × (u.1 ≡ false) × Undone s r)
      ⊎ (((connect s).1 ≡ true) × (u.1 ≡ true) × Ran s qs u.0 r)

  or_rollback-Ran :
      (s t : State) (q : List ℕ) (qs : List (List ℕ)) (o : State × Bool)
      → InTransaction o.0
      → committed o.0 ≡ committed s
      → Ran s qs o.0 (run_statements D qs o.0)
      → ((o.1 ≡ true) × Ran s qs o.0 (or_rollback D o (run_statements D qs)))
        ⊎ ((o.1 ≡ false) × Undone s (or_rollback D o (run_statements D qs)))
  or_rollback-Ran s t q qs (u, true) i e h = inl (refl, h)
  or_rollback-Ran s t q qs (u, false) i e h = inr (refl, (refl, rollback_committed u i ∙ e))

  run_statements-Ran :
      (s : State) (qs : List (List ℕ)) (t : State)
      → All IsOrdinary qs
      → InTransaction t
      → committed t ≡ committed s
      → Ran s qs t (run_statements D qs t)
  unfolding run_statements Ran
  run_statements-Ran s [] t h i e = (i, e, refl)
  run_statements-Ran s (q ∷ qs) t (o, h) i e =
      let i' = ordinary_stays q t o i in
      let e' = ordinary_committed q t o i ∙ e in
      or_rollback-Ran s t q qs (query q t) i' e' (run_statements-Ran s qs (query q t).0 h i' e')

  begun-AllOrNothing :
      (s : State) (qs : List (List ℕ)) (o : State × Bool)
      → All IsOrdinary qs
      → (o.1 ≡ true → InTransaction o.0)
      → committed o.0 ≡ committed s
      → ((o.1 ≡ false) × Undone s (and_then o (run_statements D qs)))
        ⊎ ((o.1 ≡ true) × Ran s qs o.0 (and_then o (run_statements D qs)))
  begun-AllOrNothing s qs (u, false) h i e = inl (refl, (refl, e))
  begun-AllOrNothing s qs (u, true) h i e = inr (refl, run_statements-Ran s qs u h (i refl) e)

  connected-AllOrNothing :
      (s : State) (qs : List (List ℕ)) (o : State × Bool)
      → All IsOrdinary qs
      → committed o.0 ≡ committed s
      → let r = and_then o (λ t. and_then (query begin_sql t) (run_statements D qs)) in
        ((o.1 ≡ false) × Undone s r)
        ⊎ ((o.1 ≡ true) × ((query begin_sql o.0).1 ≡ false) × Undone s r)
        ⊎ ((o.1 ≡ true) × ((query begin_sql o.0).1 ≡ true) × Ran s qs (query begin_sql o.0).0 r)
  connected-AllOrNothing s qs (t, false) h e = inl (refl, (refl, e))
  connected-AllOrNothing s qs (t, true) h e =
      elim (begun-AllOrNothing s qs (query begin_sql t) h (begin_opens t) (begin_committed t ∙ e)) [
        | inl (f, u) ↦ inr (inl (refl, f, u))
        | inr (g, u) ↦ inr (inr (refl, g, u))
      ]

  apply_statements-AllOrNothing :
      (qs : List (List ℕ)) (s : State)
      → All IsOrdinary qs
      → AllOrNothing s qs (apply_statements D qs s)
  apply_statements-AllOrNothing [] s h = inl (refl, (refl, refl))
  apply_statements-AllOrNothing (q ∷ qs) s h =
      inr (connected-AllOrNothing s (q ∷ qs) (connect s) h (connect_committed s))

  -- A body whose statements do not end the transaction themselves is applied as a whole or not at all.
  -- Where the connection, BEGIN and its statements return, one after another, the result is that of a
  -- COMMIT behind the last of them, and up to it others see what they saw before. Where one of these calls
  -- throws, or there is no statement, the body throws, and others see what they saw before.
  pub apply_sql_body-AllOrNothing :
      (sql : List ℕ) (s : State)
      → All IsOrdinary (split_statements sql)
      → AllOrNothing s (split_statements sql) (apply_sql_body D sql s)
  unfolding apply_sql_body
  apply_sql_body-AllOrNothing sql s h = apply_statements-AllOrNothing (split_statements sql) s h
