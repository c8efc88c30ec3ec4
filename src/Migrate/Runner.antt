-- ===== src/Migrate/Runner.antt =====
-- src/database/migrate.ts: `applySqlBody`, `runUp` and `runDown`. The database is a parameter: a
-- state, and what each call does to it. A call that throws ends the run, after a rollback if one is
-- due.
pub mod Laws
pub mod Records
mod Tests
use musanad_contracts_backen.Base.{
  ℕ, Bool, true, false, Option, none, some, List, [], ◌∷◌, ◌==◌, codes, if◌then◌else◌,
}
use musanad_contracts_backen.Migrate.Split.{split_statements}
use musanad_contracts_backen.Migrate.Markers.{extract_rollback_sql, strip_rollback_section}

-- A call gives the new state, and whether it returned; else it threw.
pub record Database : Type 1 where
  pub State : Type 0
  pub query : List ℕ → State → State × Bool  -- client.query
  pub connect : State → State × Bool  -- pool().connect()
  pub ensure_table : State → State × Bool  -- CREATE TABLE IF NOT EXISTS schema_migrations
  pub versions : State → List ℕ  -- the rows of schema_migrations, in ascending order
  pub reads : State → Bool  -- whether a SELECT on schema_migrations returns
  pub insert_row : ℕ → State → State × Bool  -- the row of a version
  pub delete_row : ℕ → State → State × Bool

-- `text` is what `fs.readFile` gives; none: it throws.
pub record MigrationFile : Type 0 where
  pub version : ℕ
  pub text : Option (List ℕ)

abbrev pub begin_sql : List ℕ
begin_sql = codes "BEGIN"

abbrev pub commit_sql : List ℕ
commit_sql = codes "COMMIT"

abbrev pub rollback_sql : List ℕ
rollback_sql = codes "ROLLBACK"

abbrev pub has_version : List ℕ → ℕ → Bool
has_version [] v = false
has_version (w ∷ ws) v = if w == v then true else has_version ws v

-- `all.filter((m) => !applied.has(m.version))`
abbrev pub pending_files : List ℕ → List MigrationFile → List MigrationFile
pending_files applied [] = []
pending_files applied (m ∷ ms) =
    let rest = pending_files applied ms in if has_version applied m.version then rest else m ∷ rest

abbrev pub last_of : List ℕ → Option ℕ
last_of [] = none
last_of (v ∷ []) = some v
last_of (v ∷ w ∷ vs) = last_of (w ∷ vs)

-- `all.find((m) => m.version === v)`
abbrev pub find_version : ℕ → List MigrationFile → Option MigrationFile
find_version v [] = none
find_version v (m ∷ ms) = if m.version == v then some m else find_version v ms

-- `{ await a; … b }`
abbrev pub and_then {ℓ} : {A : Type ℓ} → A × Bool → (A → A × Bool) → A × Bool
and_then (s, true) f = f s
and_then (s, false) f = (s, false)

module _ (D : Database) where
  open D use {State, query, connect, ensure_table, versions, reads, insert_row, delete_row}

  -- A statement that threw: `ROLLBACK`, whose own exception is swallowed.
  abbrev pub or_rollback : State × Bool → (State → State × Bool) → State × Bool
  or_rollback (s, true) f = f s
  or_rollback (s, false) f = ((query rollback_sql s).0, false)

  unfoldable pub run_statements : List (List ℕ) → State → State × Bool
  run_statements [] s = query commit_sql s
  run_statements (q ∷ qs) s = or_rollback (query q s) (run_statements qs)

  abbrev pub apply_statements : List (List ℕ) → State → State × Bool
  apply_statements [] s = (s, false)
  apply_statements (q ∷ qs) s =
      and_then (connect s) (λ t. and_then (query begin_sql t) (run_statements (q ∷ qs)))

  unfoldable pub apply_sql_body : List ℕ → State → State × Bool
  unfolding run_statements
  apply_sql_body sql s = apply_statements (split_statements sql) s

  -- What `runUp` does after the body: the row, unless the file has put it in.
  abbrev pub record_version : ℕ → State → State × Bool
  record_version v s =
      if reads s
      then (if has_version (versions s) v then (s, true) else insert_row v s)
      else (s, false)

  abbrev pub apply_text : ℕ → Option (List ℕ) → State → State × Bool
  apply_text v none s = (s, false)
  apply_text v (some text) s =
      and_then (apply_sql_body (strip_rollback_section text) s) (record_version v)

  -- The loop of `runUp`.
  unfoldable pub run_pending : List MigrationFile → State → State × Bool
  run_pending [] s = (s, true)
  run_pending (m ∷ ms) s = and_then (apply_text m.version m.text s) (run_pending ms)

  abbrev pub up_from : List MigrationFile → State → State × Bool
  up_from files s = if reads s then run_pending (pending_files (versions s) files) s else (s, false)

  unfoldable pub run_up : List MigrationFile → State → State × Bool
  unfolding run_pending
  run_up files s = and_then (ensure_table s) (up_from files)

  abbrev pub undo_body : ℕ → Option (List ℕ) → State → State × Bool
  undo_body v none s = (s, false)
  undo_body v (some []) s = (s, false)
  undo_body v (some (c ∷ sql)) s = and_then (apply_sql_body (c ∷ sql) s) (delete_row v)

  abbrev pub undo_text : ℕ → Option (List ℕ) → State → State × Bool
  undo_text v none s = (s, false)
  undo_text v (some text) s = undo_body v (extract_rollback_sql text) s

  abbrev pub undo_file : Option MigrationFile → State → State × Bool
  undo_file none s = (s, false)
  undo_file (some m) s = undo_text m.version m.text s

  abbrev pub down_from : List MigrationFile → Option ℕ → State → State × Bool
  down_from files none s = (s, true)
  down_from files (some v) s = undo_file (find_version v files) s

  unfoldable pub run_down : List MigrationFile → State → State × Bool
  unfolding apply_sql_body extract_rollback_sql
  run_down files s =
      and_then (ensure_table s)
        (λ t. if reads t then down_from files (last_of (versions t)) t else (t, false))
