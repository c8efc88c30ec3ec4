-- ===== src/Rules/Cache/Laws.antt =====
-- src/services/rule-cache.service.ts: what the cache can hold while loads and changes interleave.
use mathlib.Core.Path.{subst}
use musanad_contracts_backen.Base.{
  ℕ, suc, ◌+◌, ◌≤◌, ◌≡◌, refl, sym, ap, ◌∙◌, ◌⊎◌, inl, inr, Bool, true, false, some, List, [], ◌∷◌,
  ◌++◌, length, arith, Bool-cases,
}
use musanad_contracts_backen.Rules.Cache.{
  load_ok, load_failed, Flight, asked, answered, System, boot, call_load, Step, changed, notified,
  invalidated, read, arrived, failed, Reach, here, next, Listener, Connection, listen_refused,
  listening, start_rule_cache_listener, stop_rule_cache_listener,
}

abbrev pub one_if : Bool → ℕ
one_if true = 1
one_if false = 0

one_if-bound : (b : Bool) → one_if b ≤ 1
one_if-bound true = omega arith
one_if-bound false = omega arith

flag_set : (b : Bool) → one_if b ≡ 1 → b ≡ true
flag_set true h = refl
flag_set false h = absurd (omega (arith, h))

length-insert :
    {A : Type 0} (xs ys : List A) (y : A) → length (xs ++ y ∷ ys) ≡ suc (length (xs ++ ys))
length-insert [] ys y = refl
length-insert (x ∷ xs) ys y = ap suc (length-insert xs ys y)

module _ {A : Type 0} where
  -- All answers under way have a property.
  abbrev AllAnswers : (List A → Type 0) → List (Flight A) → Type 0
  AllAnswers P [] = Unit {0}
  AllAnswers P (asked ∷ fs) = AllAnswers P fs
  AllAnswers P (answered rules ∷ fs) = P rules × AllAnswers P fs

  AllAnswers-weaken :
      (P Q : List A → Type 0)
      → ((rules : List A) → P rules → Q rules)
      → (fs : List (Flight A)) → AllAnswers P fs
      → AllAnswers Q fs
  AllAnswers-weaken P Q w [] h = tt
  AllAnswers-weaken P Q w (asked ∷ fs) h = AllAnswers-weaken P Q w fs h
  AllAnswers-weaken P Q w (answered rules ∷ fs) (p, h) = (w rules p, AllAnswers-weaken P Q w fs h)

  AllAnswers-drop :
      (P : List A → Type 0) (before after : List (Flight A)) (f : Flight A)
      → AllAnswers P (before ++ f ∷ after)
      → AllAnswers P (before ++ after)
  AllAnswers-drop P [] after asked h = h
  AllAnswers-drop P [] after (answered rules) (p, h) = h
  AllAnswers-drop P (asked ∷ fs) after f h = AllAnswers-drop P fs after f h
  AllAnswers-drop P (answered rules ∷ fs) after f (p, h) = (p, AllAnswers-drop P fs after f h)

  AllAnswers-add :
      (P : List A → Type 0) (before after : List (Flight A)) (rules : List A)
      → P rules
      → AllAnswers P (before ++ after)
      → AllAnswers P (before ++ answered rules ∷ after)
  AllAnswers-add P [] after rules p h = (p, h)
  AllAnswers-add P (asked ∷ fs) after rules p h = AllAnswers-add P fs after rules p h
  AllAnswers-add P (answered rs ∷ fs) after rules p (q, h) =
      (q, AllAnswers-add P fs after rules p h)

  AllAnswers-at :
      (P : List A → Type 0) (before after : List (Flight A)) (rules : List A)
      → AllAnswers P (before ++ answered rules ∷ after)
      → P rules
  AllAnswers-at P [] after rules (p, h) = p
  AllAnswers-at P (asked ∷ fs) after rules h = AllAnswers-at P fs after rules h
  AllAnswers-at P (answered rs ∷ fs) after rules (q, h) = AllAnswers-at P fs after rules h

module _ {A T : Type 0} (page : List A → List A) where
  -- As many loads are under way as the flag says: one while it is set, else none.
  abbrev pub IsGuarded : System A T → Type 0
  IsGuarded s = length s.flights ≡ one_if s.cache.is_loading

  call_load-IsGuarded : (s : System A T) → IsGuarded s → IsGuarded (call_load s)
  unfolding call_load
  call_load-IsGuarded s h = elim (Bool-cases s.cache.is_loading) [
    | inl e ↦ rw e (h ∙ ap one_if e)
    | inr e ↦ rw e (ap suc (h ∙ ap one_if e))
  ]

  call_load-busy : (s : System A T) → s.cache.is_loading ≡ true → call_load s ≡ s
  unfolding call_load
  call_load-busy s e = rw e refl

  landed :
      (s : System A T) (before after : List (Flight A)) (f : Flight A)
      → s.flights ≡ before ++ f ∷ after
      → IsGuarded s
      → length (before ++ after) ≡ 0
  landed s before after f e h =
      let bound = one_if-bound s.cache.is_loading in
      let count = sym (length-insert before after f) ∙ ap length (sym e) ∙ h in
      omega (arith, bound, count)

  Step-IsGuarded : (s u : System A T) → Step page s u → IsGuarded s → IsGuarded u
  unfolding load_ok load_failed
  Step-IsGuarded s u (changed rules e) h = rw e h
  Step-IsGuarded s u (notified n p e) h = rw e (call_load-IsGuarded s h)
  Step-IsGuarded s u (invalidated e) h = rw e (call_load-IsGuarded s h)
  Step-IsGuarded s u (read before after f e) h = rw e (
      length-insert before after (answered (page s.stored))
      ∙ sym (length-insert before after asked)
      ∙ ap length (sym f)
      ∙ h)
  Step-IsGuarded s u (arrived before after rules now f e) h =
      rw e (landed s before after (answered rules) f h)
  Step-IsGuarded s u (failed before after g f e) h = rw e (landed s before after g f h)

  -- At every reachable state, whatever changes, notifications, answers and failures interleave, one
  -- load is under way if the flag `_isLoading` is set, and else none: no two loads overlap.
  pub Reach-IsGuarded :
      (stored : List A) {u : System A T} → Reach page (boot stored) u → IsGuarded u
  Reach-IsGuarded stored here = refl
  Reach-IsGuarded stored (next {t} {u} r st) = Step-IsGuarded t u st (Reach-IsGuarded stored r)

  -- The enabled rules that the database held at one of the states of this run.
  unfoldable pub Held : {s u : System A T} → Reach page s u → List A → Type 0
  Held {s} here rules = s.stored ≡ rules
  Held (next {t} {u} r st) rules = Held r rules ⊎ (u.stored ≡ rules)

  -- One answer of the database to the rules that it held at one state of the run.
  abbrev pub IsAnswer : {s u : System A T} → Reach page s u → List A → Type 0
  IsAnswer r rules = (held : List A) × Held r held × (rules ≡ page held)

  Held-last : {s u : System A T} (r : Reach page s u) → Held r u.stored
  unfolding Held
  Held-last here = refl
  Held-last (next r st) = inr refl

  IsAnswer-next :
      {s t u : System A T} (r : Reach page s t) (st : Step page t u) (rules : List A)
      → IsAnswer r rules
      → IsAnswer (next r st) rules
  unfolding Held
  IsAnswer-next r st rules (held, h, e) = (held, inl h, e)

  -- What the cache holds is empty or an answer, and so are all answers under way.
  abbrev IsSound : {s u : System A T} → Reach page s u → System A T → Type 0
  IsSound r v =
      ((v.cache.rules ≡ []) ⊎ IsAnswer r v.cache.rules) × AllAnswers (IsAnswer r) v.flights

  call_load-IsSound :
      {s u : System A T} (r : Reach page s u) (v : System A T)
      → IsSound r v
      → IsSound r (call_load v)
  unfolding call_load
  call_load-IsSound r v h = elim (Bool-cases v.cache.is_loading) [ inl e ↦ rw e h | inr e ↦ rw e h ]

  IsSound-next :
      {s t u : System A T} (r : Reach page s t) (st : Step page t u) (v : System A T)
      → IsSound r v
      → IsSound (next r st) v
  IsSound-next r st v (h, k) = (
    elim h [ inl e ↦ inl e | inr a ↦ inr (IsAnswer-next r st v.cache.rules a) ],
    AllAnswers-weaken (IsAnswer r) (IsAnswer (next r st)) (IsAnswer-next r st) v.flights k,
  )

  IsSound-Step :
      {s t u : System A T} (r : Reach page s t) → Step page t u → IsSound r t → IsSound r u
  unfolding load_ok load_failed
  IsSound-Step r (changed rules e) h = rw e h
  IsSound-Step {s} {t} {u} r (notified n p e) h = rw e (call_load-IsSound r t h)
  IsSound-Step {s} {t} {u} r (invalidated e) h = rw e (call_load-IsSound r t h)
  IsSound-Step {s} {t} {u} r (read before after f e) (h, k) = rw e (
    h,
    AllAnswers-add (IsAnswer r) before after (page t.stored) (t.stored, Held-last r, refl)
        (AllAnswers-drop (IsAnswer r) before after asked (subst (AllAnswers (IsAnswer r)) f k)),
  )
  IsSound-Step {s} {t} {u} r (arrived before after rules now f e) (h, k) =
      let all = subst (AllAnswers (IsAnswer r)) f k in
      rw e (
        inr (AllAnswers-at (IsAnswer r) before after rules all),
        AllAnswers-drop (IsAnswer r) before after (answered rules) all,
      )
  IsSound-Step {s} {t} {u} r (failed before after g f e) (h, k) =
      rw e (h, AllAnswers-drop (IsAnswer r) before after g (subst (AllAnswers (IsAnswer r)) f k))

  Reach-IsSound : (stored : List A) {u : System A T} (r : Reach page (boot stored) u) → IsSound r u
  Reach-IsSound stored here = (inl refl, tt)
  Reach-IsSound stored (next {t} {u} r st) =
      IsSound-next r st u (IsSound-Step r st (Reach-IsSound stored r))

  -- Along every run, whatever loads, failures, changes and notifications come to pass, the cached
  -- rules are empty, or what `fn_rule_list` gives of the rules that the database held at one state of
  -- this run, never a mixture.
  pub Reach-rules :
      (stored : List A) {u : System A T} (r : Reach page (boot stored) u)
      → (u.cache.rules ≡ []) ⊎ IsAnswer r u.cache.rules
  Reach-rules stored r = (Reach-IsSound stored r).0

  -- The state after a change.
  abbrev pub after_change : List A → System A T → System A T
  after_change new u = record u { stored = new; pending = u.pending + 1 }

  -- At rest with `rules` in the cache and `new` in the database.
  abbrev pub settled_on : List A → List A → T → System A T
  settled_on rules new now = record {
    cache = record { rules = rules; last_loaded_at = some now; is_loading = false };
    stored = new;
    pending = 0;
    flights = [];
  }

  -- At every reachable state at which the one load under way has its answer and no notification is on
  -- its way, a change is lost: its notification makes no call of the database, and when the answer
  -- arrives, the system is at rest with the new rules stored and those of the answer in the cache.
  pub stale_at_rest :
      (stored : List A) {u : System A T}
      → Reach page (boot stored) u
      → (rules new : List A) (now : T) → u.flights ≡ answered rules ∷ []
      → u.pending ≡ 0
      → let v = after_change new u in
        Step page u v
        × (call_load v ≡ v)
        × Step page v (record v { pending = 0 })
        × Step page (record v { pending = 0 }) (settled_on rules new now)
  unfolding call_load load_ok
  stale_at_rest stored {u} r rules new now f p =
      let busy : u.cache.is_loading ≡ true =
        flag_set u.cache.is_loading (sym (Reach-IsGuarded stored r) ∙ ap length f) in
      let v = after_change new u in
      let same : call_load v ≡ v = call_load-busy v busy in
      (
        changed new refl,
        same,
        notified 0 (omega (arith, p))
            (sym (ap {A = System A T} (λ x. record x { pending = 0 }) same)),
        arrived [] [] rules now f refl,
      )

-- After a `LISTEN` that failed the client is kept, so that starting the listener again does nothing,
-- whatever the database would answer; only a stop makes the next start subscribe.
pub failed_listen_blocks :
    (l : Listener) (later : Connection)
    → l.client ≡ false
    → let l' = (start_rule_cache_listener listen_refused l).0 in
      (start_rule_cache_listener later l' ≡ (l', false))
      × (l'.subscribed ≡ false)
      × ((start_rule_cache_listener listening (stop_rule_cache_listener l')).0.subscribed ≡ true)
unfolding start_rule_cache_listener stop_rule_cache_listener
failed_listen_blocks l later h = ground arith
