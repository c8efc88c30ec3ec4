-- ===== src/Auth/StateStore/Refinement.antt =====
-- src/integrations/uae-pass/state-store.ts: what the store promises, as a memory from states to records
-- that no sweeper touches, and that the Map with its sweeper keeps the promise.
use musanad_contracts_backen.Base.{
  ℕ, ◌+◌, ◌≤◌, ◌≡◌, refl, sym, ap, ◌∙◌, String, false, Option, none, some, List, [], ◌∷◌, ◌=s◌,
  =s_iff, if◌then◌else◌, arith,
}
use musanad_contracts_backen.Auth.StateStore.{
  StateRecord, Store, get, sweep, ttl_or_default, store_state, Consumed, consume_state,
}
use musanad_contracts_backen.Auth.StateStore.Laws.{
  Event, stored, consumed, swept, after, IsMap, after-IsMap, worth, get-set, get-delete, get-sweep,
}

-- A memory: the record of each state that was stored and not consumed.
abbrev pub Memory : Type 0
Memory = String → Option StateRecord

abbrev pub remember : Event → Memory → Memory
remember (stored now s u ttl) m k =
    if s =s ""
    then m k
    else if s =s k
    then some (record { user_id = u; created_at = now; expires_at = now + ttl_or_default ttl })
    else m k
remember (consumed now s) m k = if s =s "" then m k else if s =s k then none else m k
remember (swept now) m k = m k

-- What a callback gets from the memory, and from the store.
abbrev pub promised : Event → Memory → Option Consumed
promised (consumed now s) m = if s =s "" then none else worth now (m s)
promised _ m = none

abbrev pub reply : Event → Store → Option Consumed
reply (consumed now s) st = (consume_state now s st).0
reply _ st = none

abbrev pub promises : List Event → Memory → List (Option Consumed)
promises [] m = []
promises (e ∷ es) m = promised e m ∷ promises es (remember e m)

abbrev pub replies : List Event → Store → List (Option Consumed)
replies [] st = []
replies (e ∷ es) st = reply e st ∷ replies es (after e st)

abbrev pub time_of : Event → ℕ
time_of (stored now s u ttl) = now
time_of (consumed now s) = now
time_of (swept now) = now

-- The times of the events do not fall.
abbrev pub InOrder : ℕ → List Event → Type 0
InOrder t [] = Unit {0}
InOrder t (e ∷ es) = (t ≤ time_of e) × InOrder (time_of e) es

-- From the time `t` on, the store is worth what the memory is.
abbrev Agrees : ℕ → Memory → Store → Type 0
Agrees t m st = (k : String) (u : ℕ) → t ≤ u → worth u (m k) ≡ worth u (get k st.entries)

reply-promised :
    (e : Event) (t : ℕ) (m : Memory) (st : Store)
    → t ≤ time_of e
    → Agrees t m st
    → promised e m ≡ reply e st
unfolding consume_state
reply-promised (stored now s u ttl) t m st le h = refl
reply-promised (consumed now s) t m st le h = ground (arith, h s now le)
reply-promised (swept now) t m st le h = refl

after-Agrees :
    (e : Event) (t : ℕ) (m : Memory) (st : Store)
    → t ≤ time_of e
    → IsMap st.entries
    → Agrees t m st
    → Agrees (time_of e) (remember e m) (after e st)
unfolding store_state consume_state sweep
after-Agrees (stored now s u ttl) t m st le map h k v lv = ground (
  arith,
  get-set s k (record { user_id = u; created_at = now; expires_at = now + ttl_or_default ttl })
      st.entries,
  h k v (omega (arith, le, lv)),
)
after-Agrees (consumed now s) t m st le map h k v lv =
    ground (arith, get-delete s k st.entries, =s_iff s k, h k v (omega (arith, le, lv)))
after-Agrees (swept now) t m st le map h k v lv =
    h k v (omega (arith, le, lv)) ∙ sym (get-sweep now v k st.entries map lv)

replies-Agrees :
    (es : List Event) (t : ℕ) (m : Memory) (st : Store)
    → InOrder t es
    → IsMap st.entries
    → Agrees t m st
    → promises es m ≡ replies es st
replies-Agrees [] t m st o map h = refl
replies-Agrees (e ∷ es) t m st (le, o) map h = rw (reply-promised e t m st le h) (
    ap (λ rs. reply e st ∷ rs)
      (replies-Agrees es (time_of e) (remember e m) (after e st) o (after-IsMap e st map)
        (after-Agrees e t m st le map h)))

-- From an empty store, whatever stores, callbacks and sweeps follow one another at times that do not
-- fall, every callback gets what the memory without a sweeper gives it: the user and the time that were
-- last stored under its state, if they were not consumed since and their time to live has not run out.
pub replies-promises :
    (es : List Event)
    → InOrder 0 es
    → promises es (λ k. none) ≡ replies es (record { entries = []; sweeping = false })
unfolding get
replies-promises es o =
    replies-Agrees es 0 (λ k. none) (record { entries = []; sweeping = false }) o tt
      (λ k u le. refl)
