-- ===== src/Migrate/Runner/Tests.antt =====
-- src/database/migrate.ts: the markers and the runner on concrete files and a small database.
use mathlib.Core.Path.{subst}
use musanad_contracts_backen.Base.{
  ℕ, ◌≡◌, refl, ap, some_inj, inl, inr, Bool, true, false, Option, none, some, List, [], ◌∷◌, ◌++◌,
  ◌==◌, arith, Bool-cases, codes, if◌then◌else◌,
}
use musanad_contracts_backen.Chars.{trim, trim_start, has_prefix}
use musanad_contracts_backen.Js.Laws.{All}
use musanad_contracts_backen.Migrate.Split.{
  same_text, tag_rest, plain_move, move, after_line, after_block, strip_comments, first_word,
  is_control_statement, emit, scan, split_statements,
}
use musanad_contracts_backen.Migrate.Markers.{
  is_marker_line, find_from, find_marker, extract_rollback_sql, strip_rollback_section,
}
use musanad_contracts_backen.Migrate.Markers.Laws.{foot_of, flush, markers-cut}
use musanad_contracts_backen.Migrate.Runner.{
  Database, MigrationFile, begin_sql, commit_sql, rollback_sql, has_version, run_statements,
  apply_sql_body, run_pending, run_up, run_down,
}
use musanad_contracts_backen.Migrate.Runner.Laws.{
  Transactional, AllOrNothing, apply_sql_body-AllOrNothing,
}
use musanad_contracts_backen.Migrate.Runner.Records.{
  Recording, Recorded, IsHarmlessFile, run_up-records,
}

abbrev up_text : List ℕ
up_text = codes "-- see -- ROLLBACK BEGIN\nCREATE x;\n"

abbrev down_text : List ℕ
down_text = codes "DROP x;\n"

markers-cut_example :
    (strip_rollback_section (up_text ++ (flush down_text ++ foot_of [])) ≡ up_text)
    × (extract_rollback_sql (up_text ++ (flush down_text ++ foot_of []))
        ≡ some (trim (10 ∷ down_text)))
unfolding is_marker_line
markers-cut_example = markers-cut up_text down_text [] refl refl

-- A database of version rows: those that are committed, and those that an open transaction sees. A
-- statement that starts with `F` fails.
abbrev Rows : Type 0
Rows = List ℕ × Option (List ℕ)

abbrev fails : List ℕ → Bool
fails [] = false
fails (c ∷ s) = c == b'F'

abbrev run_in : List ℕ → List ℕ → List ℕ → Rows × Bool
run_in q rows work =
    if same_text q commit_sql
    then ((work, none), true)
    else if same_text q rollback_sql
    then ((rows, none), true)
    else if fails q
    then ((rows, some work), false)
    else ((rows, some work), true)

abbrev run_query : List ℕ → Rows → Rows × Bool
run_query q (rows, none) =
    if same_text q begin_sql then ((rows, some rows), true) else ((rows, none), true)
run_query q (rows, some work) = run_in q rows work

abbrev seen : Rows → List ℕ
seen (rows, none) = rows
seen (rows, some work) = work

abbrev put : ℕ → Rows → Rows × Bool
put v (rows, none) = ((v ∷ rows, none), true)
put v (rows, some work) = ((rows, some (v ∷ work)), true)

abbrev small : Database
small = record {
  State = Rows;
  query = run_query;
  connect = λ s. (s, true);
  ensure_table = λ s. (s, true);
  versions = seen;
  reads = λ s. true;
  insert_row = put;
  delete_row = λ v s. (s, true);
}

abbrev is_open : Rows → Bool
is_open (rows, none) = false
is_open (rows, some work) = true

begin_committed : (s : Rows) → (run_query begin_sql s).0.0 ≡ s.0
begin_committed (rows, none) = refl
begin_committed (rows, some work) = refl

begin_opens :
    (s : Rows) → (run_query begin_sql s).1 ≡ true → is_open (run_query begin_sql s).0 ≡ true
begin_opens (rows, none) h = refl
begin_opens (rows, some work) h = refl

abbrev IsPlain : List ℕ → Type 0
IsPlain q = (same_text q commit_sql ≡ false) × (same_text q rollback_sql ≡ false)

plain_kept :
    (q : List ℕ) (s : Rows)
    → IsPlain q
    → is_open s ≡ true
    → ((run_query q s).0.0 ≡ s.0) × (is_open (run_query q s).0 ≡ true)
plain_kept q (rows, none) (a, b) h = absurd (cc)
plain_kept q (rows, some work) (a, b) h = elim (Bool-cases (fails q)) [
  | inl e ↦ rw (a, b, e) (refl, refl)
  | inr e ↦ rw (a, b, e) (refl, refl)
]

rollback_kept : (s : Rows) → is_open s ≡ true → (run_query rollback_sql s).0.0 ≡ s.0
rollback_kept (rows, none) h = refl
rollback_kept (rows, some work) h = refl

abbrev small_transactional : Transactional small
small_transactional = record {
  View = List ℕ;
  committed = λ s. s.0;
  InTransaction = λ s. is_open s ≡ true;
  IsOrdinary = IsPlain;
  connect_committed = λ s. refl;
  begin_committed = begin_committed;
  begin_opens = begin_opens;
  ordinary_committed = λ q s o i. (plain_kept q s o i).0;
  ordinary_stays = λ q s o i. (plain_kept q s o i).1;
  rollback_committed = rollback_kept;
}

abbrev IsKeeping : List ℕ → Type 0
IsKeeping q = same_text q rollback_sql ≡ false

query_keeps :
    (q : List ℕ) (s : Rows) (v : ℕ)
    → IsKeeping q
    → (run_query q s).1 ≡ true
    → has_version (seen s) v ≡ true
    → has_version (seen (run_query q s).0) v ≡ true
query_keeps q (rows, none) v k e h = elim (Bool-cases (same_text q begin_sql)) [
  | inl b ↦ rw b h
  | inr b ↦ rw b h
]
query_keeps q (rows, some work) v k e h = elim (Bool-cases (same_text q commit_sql)) [
  | inl c ↦ rw c h
  | inr c ↦ elim (Bool-cases (fails q)) [ inl f ↦ rw (c, k, f) h | inr f ↦ rw (c, k, f) h ]
]

put_keeps :
    (w : ℕ) (s : Rows) (v : ℕ)
    → has_version (seen s) v ≡ true
    → has_version (seen (put w s).0) v ≡ true
put_keeps w (rows, none) v h = elim (Bool-cases (w == v)) [ inl e ↦ rw e | inr e ↦ rw e h ]
put_keeps w (rows, some work) v h = elim (Bool-cases (w == v)) [ inl e ↦ rw e | inr e ↦ rw e h ]

put_adds : (v : ℕ) (s : Rows) → (put v s).1 ≡ true → has_version (seen (put v s).0) v ≡ true
put_adds v (rows, none) h = ground arith
put_adds v (rows, some work) h = ground arith

abbrev small_recording : Recording small
small_recording = record {
  IsHarmless = IsKeeping;
  begin_harmless = refl;
  commit_harmless = refl;
  connect_keeps = λ s v h. h;
  query_keeps = query_keeps;
  insert_keeps = put_keeps;
  insert_adds = put_adds;
}

abbrev files : List MigrationFile
files =
    record { version = 1; text = some (codes "CREATE x;") }
    ∷ record { version = 2; text = some (codes "CREATE y; CREATE z;") }
    ∷ []

abbrev none_yet : Rows
none_yet = ([], none)

abbrev both_rows : Rows
both_rows = (2 ∷ 1 ∷ [], none)

keeping :
    (t text : List ℕ)
    → All IsKeeping (split_statements (strip_rollback_section t))
    → some t ≡ some text
    → All IsKeeping (split_statements (strip_rollback_section text))
keeping t text h e =
    subst (λ x. All IsKeeping (split_statements (strip_rollback_section x))) (some_inj t text e) h

files-IsHarmlessFile : All (IsHarmlessFile small small_recording) files
unfolding split_statements strip_rollback_section find_marker find_from is_marker_line scan move
    plain_move tag_rest emit is_control_statement strip_comments first_word after_line after_block
    trim trim_start has_prefix
files-IsHarmlessFile = (
  λ text. keeping (codes "CREATE x;") text (refl, tt),
  (λ text. keeping (codes "CREATE y; CREATE z;") text (refl, (refl, tt)), tt),
)

runner_tests :
    (run_up small files none_yet ≡ (both_rows, true))
    × (run_up small files both_rows ≡ (both_rows, true))
    × (apply_sql_body small (codes "INSERT 1; FAIL") none_yet ≡ (none_yet, false))
    × (apply_sql_body small (codes "BEGIN; COMMIT;") none_yet ≡ (none_yet, false))
    × ((run_down small files both_rows).1 ≡ false)
unfolding run_up run_pending run_statements apply_sql_body run_down extract_rollback_sql
    split_statements strip_rollback_section find_marker find_from is_marker_line scan move
    plain_move tag_rest emit is_control_statement strip_comments first_word after_line after_block
    trim trim_start has_prefix
runner_tests = (refl, refl, refl, refl, refl)

apply_sql_body-AllOrNothing_example :
    AllOrNothing small small_transactional none_yet
      (split_statements (codes "INSERT 1; FAIL"))
      (apply_sql_body small (codes "INSERT 1; FAIL") none_yet)
unfolding split_statements scan move plain_move tag_rest emit is_control_statement strip_comments
    first_word after_line after_block trim trim_start has_prefix
apply_sql_body-AllOrNothing_example =
    apply_sql_body-AllOrNothing small small_transactional (codes "INSERT 1; FAIL") none_yet
      ((refl, refl), ((refl, refl), tt))

run_up-records_example : All (λ m. Recorded small (run_up small files none_yet).0 m.version) files
run_up-records_example =
    run_up-records small small_recording files none_yet files-IsHarmlessFile
      (ap (λ r. r.1) runner_tests.0)
