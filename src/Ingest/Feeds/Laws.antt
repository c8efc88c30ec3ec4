-- ===== src/Ingest/Feeds/Laws.antt =====
-- src/workers/source-fetch.worker.ts: what a fetch upserts and a sweep counts.
use musanad_contracts_backen.Base.{
  ℕ, suc, ◌+◌, ◌≡◌, refl, ◌∙◌, Bool, true, false, Option, none, some, List, [], ◌∷◌, length, arith,
}
use musanad_contracts_backen.Calls.{Outcome, returned, thrown}
use musanad_contracts_backen.Js.{Fields}
use musanad_contracts_backen.Ingest.Feeds.{
  DueSourceRow, NormalisedSignal, normalised_to_upsert_payload, Progress, FetchStats, count_source,
  fetch_all, run_source_fetch_sweep,
}

module _ {N Raw : Type 0} (normalise : Raw → Outcome (NormalisedSignal N))
    (upsert : List (Fields N) → Outcome Bool) where
  abbrev onto : Option (Fields N) → List (Fields N) → List (Fields N)
  onto none rest = rest
  onto (some payload) rest = payload ∷ rest

  abbrev payload_of : Outcome (NormalisedSignal N) → List (Fields N) → List (Fields N)
  payload_of (returned s) rest = onto (normalised_to_upsert_payload s) rest
  payload_of (thrown m) rest = rest

  -- The payloads of the signals that can be normalised and have valid dates, behind those before, newest first.
  abbrev pub payloads_onto : List Raw → List (Fields N) → List (Fields N)
  payloads_onto [] before = before
  payloads_onto (raw ∷ raws) before = payloads_onto raws (payload_of (normalise raw) before)

  abbrev pub one_if_inserted : Outcome Bool → ℕ
  one_if_inserted (returned true) = 1
  one_if_inserted (returned false) = 0
  one_if_inserted (thrown m) = 0

  -- How many of the upserts returned that they inserted.
  abbrev pub inserted_in : List (Fields N) → ℕ
  inserted_in [] = 0
  inserted_in (p ∷ before) = inserted_in before + one_if_inserted (upsert (p ∷ before))

  abbrev IsCounted : List Raw → Progress N → Progress N → Type 0
  IsCounted raws p q =
      (q.total ≡ p.total + length raws)
      × (q.upserts ≡ payloads_onto raws p.upserts)
      × (q.inserted ≡ inserted_in q.upserts)

count_source-lem :
    {N : Type 0} (o : Outcome (Progress N)) (st : FetchStats)
    → let st' = count_source o st in
      (st'.candidates ≡ st.candidates)
      × (st'.processed + st'.errors ≡ suc (st.processed + st.errors))
count_source-lem (returned p) st = (refl, omega arith)
count_source-lem (thrown m) st = (refl, omega arith)

fetch_all-lem :
    {N : Type 0} (process : DueSourceRow → Outcome (Progress N)) (rows : List DueSourceRow)
    (st : FetchStats)
    → let st' = fetch_all process rows st in
      (st'.candidates ≡ st.candidates)
      × (st'.processed + st'.errors ≡ st.processed + st.errors + length rows)
fetch_all-lem process [] st = (refl, omega arith)
fetch_all-lem process (row ∷ rows) st =
    let (c, n) = count_source-lem (process row) st in
    let (c', n') = fetch_all-lem process rows (count_source (process row) st) in
    (c' ∙ c, omega (arith, n, n'))

-- A sweep takes every source that the scan gives, whatever the others do: each is counted, as processed
-- or as an error.
pub run_source_fetch_sweep-counts :
    {N : Type 0} (process : DueSourceRow → Outcome (Progress N))
    (rows : Outcome (List DueSourceRow))
    → let st = run_source_fetch_sweep process rows in st.processed + st.errors ≡ st.candidates
unfolding run_source_fetch_sweep
run_source_fetch_sweep-counts process (thrown m) = refl
run_source_fetch_sweep-counts process (returned rows) =
    let (c, n) =
      fetch_all-lem process rows
        (record { candidates = length rows; processed = 0; inserted_signals = 0; errors = 0 }) in
    omega (arith, c, n)
