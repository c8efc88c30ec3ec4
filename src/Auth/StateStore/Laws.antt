-- ===== src/Auth/StateStore/Laws.antt =====
-- src/integrations/uae-pass/state-store.ts: a state is consumed once at most, and only while it is
-- fresh.
use musanad_contracts_backen.Base.{
  ℕ, ◌+◌, ◌≤◌, ◌≡◌, refl, ◌∙◌, ◌≢◌, inl, inr, String, Bool, true, false, Option, none, some, List,
  [], ◌∷◌, ◌=s◌, =s_iff, leb, if◌then◌else◌, arith, Bool-cases,
}
use musanad_contracts_backen.Auth.StateStore.{
  StateRecord, Entries, Store, get, set, delete, sweep_entries, sweep, ttl_or_default, store_state,
  Consumed, fresh, consume_found, consume_state,
}

pub get-set :
    (k j : String) (r : StateRecord) (es : Entries)
    → get j (set k r es) ≡ (if k =s j then some r else get j es)
unfolding get set
get-set k j r [] = refl
get-set k j r ((i, q) ∷ es) = ground (arith, =s_iff i k, =s_iff i j, =s_iff k j, get-set k j r es)

pub get-delete :
    (k j : String) (es : Entries) → get j (delete k es) ≡ (if k =s j then none else get j es)
unfolding get delete
get-delete k j [] = ground arith
get-delete k j ((i, q) ∷ es) = ground (arith, =s_iff i k, =s_iff i j, =s_iff k j, get-delete k j es)

-- A state that was stored is given back, with its user and time, until its time to live has run out,
-- and then not; in either case a second attempt finds nothing. What stands under any other state
-- is as before.
pub consume-store :
    (now : ℕ) (state : String) (user_id ttl_ms : Option ℕ) (st st' : Store)
    → store_state now state user_id ttl_ms st ≡ some st'
    → ((t : ℕ)
        → ((consume_state t state st').0 ≡ (
            if leb (now + ttl_or_default ttl_ms) t
            then none
            else some (record { user_id = user_id; created_at = now })))
          × ((t' : ℕ) → (consume_state t' state (consume_state t state st').1).0 ≡ none))
      × ((t : ℕ) (other : String)
          → other ≢ state
          → (consume_state t other st').0 ≡ (consume_state t other st).0)
unfolding store_state consume_state
consume-store now state user_id ttl_ms st st' h =
    let r : StateRecord = record {
      user_id = user_id;
      created_at = now;
      expires_at = now + ttl_or_default ttl_ms;
    } in
    (
      λ t. (
        ground (arith, get-set state state r st.entries, =s_iff state state),
        λ t'. ground (
          arith,
          get-set state state r st.entries,
          =s_iff state state,
          get-delete state state (set state r st.entries),
        ),
      ),
      λ t other d. ground (arith, get-set state other r st.entries, =s_iff state other),
    )

-- Presence in the map.
abbrev pub present : String → Store → ℕ
present j st = elim (get j st.entries) [ none ↦ 0 | some r ↦ 1 ]

abbrev pub got : Option Consumed → ℕ
got none = 0
got (some c) = 1

get-sweep_none :
    (now : ℕ) (j : String) (es : Entries) → get j es ≡ none → get j (sweep_entries now es) ≡ none
unfolding get sweep_entries
get-sweep_none now j [] h = refl
get-sweep_none now j ((i, q) ∷ es) h = ground (arith, get-sweep_none now j es)

-- What can happen to the store: its three operations, at the times they happen.
pub data Event : Type 0 where
  stored : ℕ → String → Option ℕ → Option ℕ → Event
  consumed : ℕ → String → Event
  swept : ℕ → Event

abbrev pub or_same : Option Store → Store → Store
or_same none st = st
or_same (some st') st = st'

abbrev pub after : Event → Store → Store
after (stored now s u ttl) st = or_same (store_state now s u ttl st) st
after (consumed now s) st = (consume_state now s st).1
after (swept now) st = sweep now st

-- Whether the event stores the state `j`, and whether it consumes it with success.
abbrev pub stores : String → Event → ℕ
stores j (stored now s u ttl) = if s =s j then 1 else 0
stores j _ = 0

abbrev pub succeeds : String → Event → Store → ℕ
succeeds j (consumed now s) st = if s =s j then got (consume_state now s st).0 else 0
succeeds j _ st = 0

abbrev pub times_stored : String → List Event → ℕ
times_stored j [] = 0
times_stored j (e ∷ es) = stores j e + times_stored j es

abbrev pub times_consumed : String → List Event → Store → ℕ
times_consumed j [] st = 0
times_consumed j (e ∷ es) st = succeeds j e st + times_consumed j es (after e st)

consumed_step :
    (j : String) (e : Event) (st : Store)
    → succeeds j e st + present j (after e st) ≤ stores j e + present j st
unfolding store_state consume_state sweep
consumed_step j (stored now s u ttl) st = ground (
  arith,
  get-set s j (record { user_id = u; created_at = now; expires_at = now + ttl_or_default ttl })
      st.entries,
)
consumed_step j (consumed now s) st = ground (arith, get-delete s j st.entries, =s_iff s j)
consumed_step j (swept now) st = ground (arith, get-sweep_none now j st.entries)

consumed_run :
    (j : String) (es : List Event) (st : Store)
    → times_consumed j es st ≤ times_stored j es + present j st
consumed_run j [] st = omega arith
consumed_run j (e ∷ es) st = omega (arith, consumed_step j e st, consumed_run j es (after e st))

-- From an empty store, whatever stores, callbacks and sweeps follow one another at whatever times,
-- a state is consumed with success at most as often as it was stored.
pub single_use :
    (j : String) (es : List Event)
    → times_consumed j es (record { entries = []; sweeping = false }) ≤ times_stored j es
unfolding get
single_use j es = omega (arith, consumed_run j es (record { entries = []; sweeping = false }))

-- Keys differ, as they do in a Map.
abbrev pub IsMap : Entries → Type 0
IsMap [] = Unit {0}
IsMap ((k, r) ∷ es) = (get k es ≡ none) × IsMap es

set-IsMap : (k : String) (r : StateRecord) (es : Entries) → IsMap es → IsMap (set k r es)
unfolding get set
set-IsMap k r [] h = (refl, tt)
set-IsMap k r ((j, q) ∷ es) (a, h) = elim (Bool-cases (j =s k)) [
  | inl e ↦ rw e (a, h)
  | inr e ↦ rw e (get-set k j r es ∙ ground (arith, =s_iff k j, =s_iff j k), set-IsMap k r es h)
]

delete-IsMap : (k : String) (es : Entries) → IsMap es → IsMap (delete k es)
unfolding get delete
delete-IsMap k [] h = tt
delete-IsMap k ((j, q) ∷ es) (a, h) = elim (Bool-cases (j =s k)) [
  | inl e ↦ rw e (delete-IsMap k es h)
  | inr e ↦ rw e (get-delete k j es ∙ ground arith, delete-IsMap k es h)
]

sweep-IsMap : (now : ℕ) (es : Entries) → IsMap es → IsMap (sweep_entries now es)
unfolding get sweep_entries
sweep-IsMap now [] h = tt
sweep-IsMap now ((j, q) ∷ es) (a, h) = elim (Bool-cases (leb q.expires_at now)) [
  | inl e ↦ rw e (sweep-IsMap now es h)
  | inr e ↦ rw e (get-sweep_none now j es a, sweep-IsMap now es h)
]

if-IsMap :
    (b : Bool) (now : ℕ) (s : String) (st : Store) (o : Option StateRecord)
    → IsMap st.entries
    → IsMap (if b then (none, st) else consume_found now s st o).1.entries
if-IsMap true now s st o h = h
if-IsMap false now s st none h = h
if-IsMap false now s st (some r) h = delete-IsMap s st.entries h

-- Every operation keeps the keys apart.
pub after-IsMap : (e : Event) (st : Store) → IsMap st.entries → IsMap (after e st).entries
unfolding store_state consume_state sweep
after-IsMap (stored now s u ttl) st h = elim (Bool-cases (s =s "")) [
  | inl e ↦ rw e h
  | inr e ↦ rw e (set-IsMap s _ st.entries h)
]
after-IsMap (consumed now s) st h = if-IsMap (s =s "") now s st (get s st.entries) h
after-IsMap (swept now) st h = sweep-IsMap now st.entries h

-- What a record is worth at a time.
abbrev pub worth : ℕ → Option StateRecord → Option Consumed
worth t none = none
worth t (some r) = fresh t r

pub get-sweep :
    (now t : ℕ) (j : String) (es : Entries)
    → IsMap es
    → now ≤ t
    → worth t (get j (sweep_entries now es)) ≡ worth t (get j es)
unfolding get sweep_entries
get-sweep now t j [] h k = refl
get-sweep now t j ((i, q) ∷ es) (a, h) k =
    ground (arith, =s_iff i j, get-sweep now t j es h k, get-sweep_none now i es a)

-- The sweeper is invisible: at its time or later, an attempt to consume a state gives the same with
-- the sweep as without it.
pub consume-sweep :
    (now t : ℕ) (state : String) (st : Store)
    → IsMap st.entries
    → now ≤ t
    → (consume_state t state (sweep now st)).0 ≡ (consume_state t state st).0
unfolding consume_state sweep
consume-sweep now t state st h k = ground (arith, get-sweep now t state st.entries h k)
