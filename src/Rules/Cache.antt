-- ===== src/Rules/Cache.antt =====
-- src/services/rule-cache.service.ts: the in-memory rule cache, its loads and its listener. A load
-- waits for the database between `begin_load` and `load_ok` or `load_failed`, and other events may
-- fall between; the steps that the process and the database take are the relation `Step`.
pub mod Laws
use musanad_contracts_backen.Base.{
  ℕ, suc, ◌+◌, ◌≡◌, Bool, true, false, Option, none, some, List, [], ◌∷◌, ◌++◌, if◌then◌else◌,
}

-- The module's variables. `A` is the type of a rule, `T` that of a time.
pub record Cache (A T : Type 0) : Type 0 where
  pub rules : List A
  pub last_loaded_at : Option T
  pub is_loading : Bool

-- `result?.data ?? []`
abbrev pub data_or_nil : {A : Type 0} → Option (List A) → List A
data_or_nil none = []
data_or_nil (some rules) = rules

module _ {A T : Type 0} where
  abbrev pub empty_cache : Cache A T
  empty_cache = record { rules = []; last_loaded_at = none; is_loading = false }

  -- `loadRules` up to its call of the database; true if the call is made.
  unfoldable pub begin_load : Cache A T → Cache A T × Bool
  begin_load c = if c.is_loading then (c, false) else (record c { is_loading = true }, true)

  -- The rest of `loadRules`, when the call returns, and when it throws.
  unfoldable pub load_ok : T → Option (List A) → Cache A T → Cache A T
  load_ok now result c = record c {
    rules = data_or_nil result;
    last_loaded_at = some now;
    is_loading = false;
  }

  unfoldable pub load_failed : Cache A T → Cache A T
  load_failed c = record c { is_loading = false }

-- A load that is under way: the call is made, and the database has answered with rules.
pub data Flight (A : Type 0) : Type 0 where
  asked : Flight A
  answered : List A → Flight A

-- The cache beside the enabled rules of the database, the notifications on their way, and the loads
-- under way, as many as have made their call.
pub record System (A T : Type 0) : Type 0 where
  pub cache : Cache A T
  pub stored : List A
  pub pending : ℕ
  pub flights : List (Flight A)

module _ {A T : Type 0} where
  abbrev pub boot : List A → System A T
  boot stored = record { cache = empty_cache; stored = stored; pending = 0; flights = [] }

  -- A call of `loadRules`, by a notification, by `invalidateRuleCache` or at the start.
  unfoldable pub call_load : System A T → System A T
  unfolding begin_load
  call_load s =
      let (c, asks) = begin_load s.cache in
      record s { cache = c; flights = if asks then asked ∷ s.flights else s.flights }

-- `page` is what `fn_rule_list` gives of the enabled rules for the arguments of `loadRules`.
module _ {A T : Type 0} (page : List A → List A) where
  -- What can happen next: a rule is changed, which notifies; a notification arrives; the cache is
  -- invalidated by hand; the database answers one of the loads; the answer of one arrives, or its call
  -- throws.
  pub data Step (s u : System A T) : Type 0 where
    changed : (rules : List A) → u ≡ record s { stored = rules; pending = s.pending + 1 } → Step s u
    notified : (n : ℕ) → s.pending ≡ suc n → u ≡ record (call_load s) { pending = n } → Step s u
    invalidated : u ≡ call_load s → Step s u
    read :
        (before after : List (Flight A))
        → s.flights ≡ before ++ asked ∷ after
        → u ≡ record s { flights = before ++ answered (page s.stored) ∷ after }
        → Step s u
    arrived :
        (before after : List (Flight A)) (rules : List A) (now : T)
        → s.flights ≡ before ++ answered rules ∷ after
        → u ≡ record s { cache = load_ok now (some rules) s.cache; flights = before ++ after }
        → Step s u
    failed :
        (before after : List (Flight A)) (f : Flight A)
        → s.flights ≡ before ++ f ∷ after
        → u ≡ record s { cache = load_failed s.cache; flights = before ++ after }
        → Step s u

  pub data Reach (s : System A T) : System A T → Type 0 where
    here : Reach s s
    next : {t u : System A T} → Reach s t → Step t u → Reach s u

-- The listener: whether a client is held, and whether its LISTEN went through.
pub record Listener : Type 0 where
  pub client : Bool
  pub subscribed : Bool

-- What the two calls of `startRuleCacheListener` do: `connect` and `LISTEN`.
pub data Connection : Type 0 where
  refused : Connection
  listen_refused : Connection
  listening : Connection

-- True as well if the initial load follows.
unfoldable pub start_rule_cache_listener : Connection → Listener → Listener × Bool
start_rule_cache_listener outcome l = if l.client then (l, false) else elim outcome [
  | refused ↦ (l, false)
  | listen_refused ↦ (record { client = true; subscribed = false }, false)
  | listening ↦ (record { client = true; subscribed = true }, true)
]

unfoldable pub stop_rule_cache_listener : Listener → Listener
stop_rule_cache_listener l = if l.client then record { client = false; subscribed = false } else l
