-- ===== src/Auth/StateStore.antt =====
-- src/integrations/uae-pass/state-store.ts: the single-use store of OAuth states. A Map is a list of
-- pairs in insertion order; times are milliseconds, and `now` is what `Date.now()` returns.
pub mod Laws
pub mod Refinement
use musanad_contracts_backen.Base.{
  ℕ, ◌+◌, String, Bool, true, false, Option, none, some, List, [], ◌∷◌, ◌=s◌, leb, if◌then◌else◌,
}

pub record StateRecord : Type 0 where
  pub user_id : Option ℕ
  pub created_at : ℕ
  pub expires_at : ℕ

abbrev pub Entries : Type 0
Entries = List (String × StateRecord)

-- The module's variables: the map, and whether the sweeper's timer runs.
pub record Store : Type 0 where
  pub entries : Entries
  pub sweeping : Bool

abbrev pub default_ttl_ms : ℕ
default_ttl_ms = 300000

-- `_store.get(k)`, `_store.set(k, r)` and `_store.delete(k)`.
unfoldable pub get : String → Entries → Option StateRecord
get k [] = none
get k ((j, r) ∷ es) = if j =s k then some r else get k es

unfoldable pub set : String → StateRecord → Entries → Entries
set k r [] = (k, r) ∷ []
set k r ((j, q) ∷ es) = if j =s k then (j, r) ∷ es else (j, q) ∷ set k r es

unfoldable pub delete : String → Entries → Entries
delete k [] = []
delete k ((j, r) ∷ es) = let rest = delete k es in if j =s k then rest else (j, r) ∷ rest

unfoldable pub sweep_entries : ℕ → Entries → Entries
sweep_entries now [] = []
sweep_entries now ((j, r) ∷ es) =
    let rest = sweep_entries now es in if leb r.expires_at now then rest else (j, r) ∷ rest

unfoldable pub sweep : ℕ → Store → Store
sweep now st = record st { entries = sweep_entries now st.entries }

abbrev pub ttl_or_default : Option ℕ → ℕ
ttl_or_default none = default_ttl_ms
ttl_or_default (some ms) = ms

-- `none` is the error that an empty state raises.
unfoldable pub store_state : ℕ → String → Option ℕ → Option ℕ → Store → Option Store
store_state now state user_id ttl_ms st =
    if state =s ""
    then none
    else some (record {
      entries =
          set state
            (record {
              user_id = user_id;
              created_at = now;
              expires_at = now + ttl_or_default ttl_ms;
            })
            st.entries;
      sweeping = true;
    })

pub record Consumed : Type 0 where
  pub user_id : Option ℕ
  pub created_at : ℕ

abbrev pub fresh : ℕ → StateRecord → Option Consumed
fresh now r =
    if leb r.expires_at now
    then none
    else some (record { user_id = r.user_id; created_at = r.created_at })

abbrev pub consume_found : ℕ → String → Store → Option StateRecord → Option Consumed × Store
consume_found now state st none = (none, st)
consume_found now state st (some r) = (fresh now r, record st { entries = delete state st.entries })

unfoldable pub consume_state : ℕ → String → Store → Option Consumed × Store
consume_state now state st =
    if state =s "" then (none, st) else consume_found now state st (get state st.entries)

unfoldable pub reset_state_store : Store → Store
reset_state_store st = record { entries = []; sweeping = false }
