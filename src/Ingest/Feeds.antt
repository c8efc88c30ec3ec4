-- ===== src/Ingest/Feeds.antt =====
-- src/workers/source-fetch.worker.ts: the feeds of signals and how they are fetched. The adapters are
-- parameters: what a fetch yields.
pub mod Laws
use Prim.Native.String as S
use text.Mathlib.Text
use musanad_contracts_backen.Base.{
  ℕ, suc, ◌+◌, String, Bool, true, false, not, ◌&&◌, Option, none, some, List, [], ◌∷◌, codes,
  length, ◌=s◌, if◌then◌else◌,
}
use musanad_contracts_backen.Calls.{
  Units, Outcome, returned, thrown, guard_passes, start_driver, stop_driver,
}
use musanad_contracts_backen.Js.{Json, Items, Fields, num, str, arr, obj, field, end}

-- The classes of adapters.
pub data AdapterClass : Type 0 where
  ofac_sdn eu_consolidated un_security_council uk_hmt gdelt commodity_crude fx mohre_labor rss :
      AdapterClass

-- The columns that are read here.
pub record DueSourceRow : Type 0 where
  pub id : ℕ
  pub tenant_id : String
  pub source_id : String
  pub url : Option String

abbrev pub fixed_adapters : List (String × AdapterClass)
fixed_adapters =
    ("ofac_sdn", ofac_sdn)
    ∷ ("eu_consolidated", eu_consolidated)
    ∷ ("un_security_council", un_security_council)
    ∷ ("uk_hmt", uk_hmt)
    ∷ ("gdelt_v2", gdelt)
    ∷ ("commodity_crude", commodity_crude)
    ∷ ("fx_usd_aed", fx)
    ∷ ("mohre_labor", mohre_labor)
    ∷ []

abbrev pub has_text : Option String → Bool
has_text none = false
has_text (some s) = not (s =s "")

abbrev pub rss_adapter : DueSourceRow → Option AdapterClass
rss_adapter row =
    if Text.starts_with row.source_id "rss_" && has_text row.url then some rss else none

abbrev pub pick_adapter : List (String × AdapterClass) → DueSourceRow → Option AdapterClass
pick_adapter [] row = rss_adapter row
pick_adapter ((id, class) ∷ rest) row =
    let other = pick_adapter rest row in if row.source_id =s id then some class else other

-- `buildAdapterForRow`: the class; its configuration is taken from the row.
unfoldable pub build_adapter_for_row : DueSourceRow → Option AdapterClass
build_adapter_for_row row = pick_adapter fixed_adapters row

-- `N` is the type of the numbers; a date is what `toISOString`
-- gives for it, none where it throws.
pub record NormalisedSignal (N : Type 0) : Type 0 where
  pub source_id : String
  pub source_reliability : N
  pub fetched_at : Option String
  pub event_date : Option (Option String)
  pub kind : String
  pub title : String
  pub summary : Option String
  pub geographies : Items N
  pub affected_entities : Items N
  pub severity : String
  pub confidence : N
  pub url : Option String
  pub raw_payload : Fields N
  pub dedup_hash : String

abbrev pub field_if : {N : Type 0} → String → Option String → Fields N → Fields N
field_if key none rest = rest
field_if key (some s) rest = field key (str s) rest

abbrev pub payload_at :
    {N : Type 0} → NormalisedSignal N → (fetched : String) → (event : Option String) → Fields N
payload_at s fetched event = field "sourceId" (str s.source_id) (
    field "sourceReliability" (num s.source_reliability) (
      field "fetchedAt" (str fetched) (
        field_if "eventDate" event (
          field "kind" (str s.kind) (
            field "title" (str s.title) (
              field_if "summary" s.summary (
                field "geographies" (arr s.geographies) (
                  field "affectedEntities" (arr s.affected_entities) (
                    field "severity" (str s.severity) (
                      field "confidence" (num s.confidence) (
                        field_if "url" s.url (
                          field "rawPayload" (obj s.raw_payload)
                            (field "dedupHash" (str s.dedup_hash) end)))))))))))))

abbrev pub with_dates :
    {N : Type 0}
    → NormalisedSignal N
    → (fetched : Option String) → (event : Option (Option String)) → Option (Fields N)
with_dates s none event = none
with_dates s (some fetched) none = some (payload_at s fetched none)
with_dates s (some fetched) (some none) = none
with_dates s (some fetched) (some (some t)) = some (payload_at s fetched (some t))

-- `normalisedToUpsertPayload`, which throws where a date is invalid.
unfoldable pub normalised_to_upsert_payload : {N : Type 0} → NormalisedSignal N → Option (Fields N)
normalised_to_upsert_payload s = with_dates s s.fetched_at s.event_date

-- What a fetch yields: raw signals, and then its end or an exception.
pub record Feed (Raw : Type 0) : Type 0 where
  pub raws : List Raw
  pub ending : Option Units

-- The counters of `processSource`, and the payloads that were upserted, newest first.
pub record Progress (N : Type 0) : Type 0 where
  pub inserted : ℕ
  pub total : ℕ
  pub upserts : List (Fields N)

-- `upsert` is what `fn_osint_signal_upsert` gives, for the payloads so far, of which the newest is its
-- own: whether `result?.inserted` holds.
module _ {N Raw : Type 0} (normalise : Raw → Outcome (NormalisedSignal N))
    (upsert : List (Fields N) → Outcome Bool) where
  abbrev pub count_inserted : Outcome Bool → ℕ → ℕ
  count_inserted (returned true) n = n + 1
  count_inserted (returned false) n = n
  count_inserted (thrown m) n = n

  -- The upsert of a payload; none: there is none, since its dates threw.
  abbrev pub upsert_payload : Option (Fields N) → Progress N → Progress N
  upsert_payload none p = record p { total = p.total + 1 }
  upsert_payload (some payload) p =
      let upserts = payload ∷ p.upserts in
      record {
        inserted = count_inserted (upsert upserts) p.inserted;
        total = p.total + 1;
        upserts = upserts;
      }

  abbrev pub one_signal : Outcome (NormalisedSignal N) → Progress N → Progress N
  one_signal (thrown m) p = record p { total = p.total + 1 }
  one_signal (returned s) p = upsert_payload (normalised_to_upsert_payload s) p

  -- The loop of `processSource`.
  unfoldable pub fetch_loop : List Raw → Progress N → Progress N
  fetch_loop [] p = p
  fetch_loop (raw ∷ raws) p = fetch_loop raws (one_signal (normalise raw) p)

  abbrev pub nothing_done : Progress N
  nothing_done = record { inserted = 0; total = 0; upserts = [] }

  abbrev pub end_of_feed : Option Units → Progress N → Outcome (Progress N)
  end_of_feed none p = returned p
  end_of_feed (some m) p = thrown m

  abbrev pub with_adapter : Option AdapterClass → Feed Raw → Outcome (Progress N)
  with_adapter none feed = returned nothing_done
  with_adapter (some class) feed = end_of_feed feed.ending (fetch_loop feed.raws nothing_done)

  -- `processSource`, for what the guard's call gives.
  unfoldable pub process_source : Outcome Bool → DueSourceRow → Feed Raw → Outcome (Progress N)
  unfolding guard_passes build_adapter_for_row fetch_loop
  process_source enabled row feed =
      if guard_passes enabled
      then with_adapter (build_adapter_for_row row) feed
      else returned nothing_done

pub record FetchStats : Type 0 where
  pub candidates : ℕ
  pub processed : ℕ
  pub inserted_signals : ℕ
  pub errors : ℕ

abbrev pub count_source : {N : Type 0} → Outcome (Progress N) → FetchStats → FetchStats
count_source (returned p) st = record st {
  processed = st.processed + 1;
  inserted_signals = st.inserted_signals + p.inserted;
}
count_source (thrown m) st = record st { errors = st.errors + 1 }

abbrev pub fetch_all :
    {N : Type 0}
    → (DueSourceRow → Outcome (Progress N))
    → List DueSourceRow
    → FetchStats
    → FetchStats
fetch_all process [] st = st
fetch_all process (row ∷ rows) st = fetch_all process rows (count_source (process row) st)

-- `runSourceFetchSweep`, for what the scan gives and each source does.
unfoldable pub run_source_fetch_sweep :
    {N : Type 0} → (DueSourceRow → Outcome (Progress N)) → Outcome (List DueSourceRow) → FetchStats
run_source_fetch_sweep process (thrown m) = record {
  candidates = 0;
  processed = 0;
  inserted_signals = 0;
  errors = 0;
}
run_source_fetch_sweep process (returned rows) =
    fetch_all process rows
      (record { candidates = length rows; processed = 0; inserted_signals = 0; errors = 0 })

-- What `runSingleSourceFetch` gives; `none`: the source is not found.
abbrev pub run_single_source_fetch :
    {N : Type 0}
    → (DueSourceRow → Outcome (Progress N))
    → Option DueSourceRow
    → Outcome (Option (Progress N))
run_single_source_fetch process none = returned none
run_single_source_fetch process (some row) = elim (process row) [
  | returned p ↦ returned (some p)
  | thrown m ↦ thrown m
]

unfoldable pub start_source_fetch_worker :
    (test_mode switched_on valid running : Bool) → Bool × Bool
unfolding start_driver
start_source_fetch_worker test_mode switched_on valid running =
    start_driver test_mode switched_on valid running

unfoldable pub stop_source_fetch_worker : (running : Bool) → Bool
unfolding stop_driver
stop_source_fetch_worker running = stop_driver running
