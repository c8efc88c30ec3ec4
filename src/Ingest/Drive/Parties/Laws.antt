-- ===== src/Ingest/Drive/Parties/Laws.antt =====
-- src/services/migration-orchestrator.service.ts: the cache of parties, and which token is used.
use mathlib.Core.Path.{subst}
use musanad_contracts_backen.Base.{
  true, false, ℕ, suc, ◌+◌, ◌<◌, ◌≤◌, ◌≡◌, refl, sym, ap, ◌∙◌, ◌⊎◌, inl, inr, String, Option, none,
  some, List, [], ◌∷◌, some_inj, ◌≢◌, ltb, arith, Bool-cases, Option-cases, ◌=s◌, =s_iff,
}
use musanad_contracts_backen.Chars.{trim}
use musanad_contracts_backen.Calls.Laws.{same_units_refl}
use musanad_contracts_backen.Calls.{Units, Outcome, returned, thrown}
use musanad_contracts_backen.Ingest.Drive.Session.{
  Call, refresh_access_token, update_tokens, lookup_party, create_party, Answers, BatchContext,
  Session, Action, follow, ◌>>=◌, ask, perform, attempt,
}
use musanad_contracts_backen.Ingest.Drive.Session.Laws.{returned-inj}
use musanad_contracts_backen.Ingest.Drive.Parties.{
  cached, ensure_fresh_token, keep_token, reconnect, refresh, after_create, after_lookup,
  resolve_party, find_or_create_party,
}

cached_newest :
    (key : Units) (n : ℕ) (cache : List (Units × ℕ))
    → cached key ((key, suc n) ∷ cache) ≡ some (suc n)
cached_newest key n cache = rw (same_units_refl key) refl

module _ {N : Type 0} (answers : Answers N) where
  -- Where the step returns a party that counts, the cache holds it.
  abbrev Keeps : Units → Action N (Option ℕ) → Session N → Type 0
  Keeps key m s =
      (n : ℕ) → (m s).0 ≡ returned (some (suc n)) → cached key (m s).1.party_cache ≡ some (suc n)

  remember_lem :
      (key : Units) (id n : ℕ) (cache : List (Units × ℕ))
      → returned (some id) ≡ returned (some (suc n))
      → cached key ((key, id) ∷ cache) ≡ some (suc n)
  remember_lem key id n cache e =
      let h : id ≡ suc n = some_inj id (suc n) (returned-inj (some id) (some (suc n)) e) in
      subst (λ i. cached key ((key, i) ∷ cache) ≡ some (suc n)) (sym h) (cached_newest key n cache)

  after_create-Keeps :
      (key : Units) (o : Outcome (Option ℕ)) (s : Session N)
      → Keeps key (after_create answers key o) s
  unfolding ◌>>=◌
  after_create-Keeps key (thrown m) s n e = absurd cc
  after_create-Keeps key (returned none) s n e = absurd cc
  after_create-Keeps key (returned (some id)) s n e = remember_lem key id n s.party_cache e

  after_lookup-Keeps :
      (key cleaned : Units) (o : Option ℕ) (s : Session N)
      → Keeps key (after_lookup answers key cleaned o) s
  unfolding ◌>>=◌ attempt ask
  after_lookup-Keeps key cleaned (some id) s n e = remember_lem key id n s.party_cache e
  after_lookup-Keeps key cleaned none s n e =
      after_create-Keeps key (answers.new_party (create_party cleaned ∷ s.calls))
        (record s { calls = create_party cleaned ∷ s.calls }) n e

  found-Keeps :
      (key cleaned : Units) (o : Outcome (Option ℕ)) (s : Session N)
      → (n : ℕ) → (follow (after_lookup answers key cleaned) (o, s)).0 ≡ returned (some (suc n))
      → cached key (follow (after_lookup answers key cleaned) (o, s)).1.party_cache ≡ some (suc n)
  found-Keeps key cleaned (returned o) s n e = after_lookup-Keeps key cleaned o s n e
  found-Keeps key cleaned (thrown m) s n e = absurd cc

  resolve_party-Keeps :
      (key cleaned : Units) (s : Session N) → Keeps key (resolve_party answers key cleaned) s
  unfolding ◌>>=◌ ask
  resolve_party-Keeps key [] s n e = absurd cc
  resolve_party-Keeps key (c ∷ cleaned) s n e = elim (Option-cases (cached key s.party_cache)) [
    | inl h ↦ rw h (
        found-Keeps key (c ∷ cleaned) (answers.party (lookup_party (c ∷ cleaned) ∷ s.calls))
          (record s { calls = lookup_party (c ∷ cleaned) ∷ s.calls }) n (rw h at e))
    | inr (i, h) ↦
        rw h (h ∙ ap some (some_inj i (suc n) (returned-inj (some i) (some (suc n)) (rw h at e))))
  ]

  resolve_again :
      (key cleaned : Units) (n : ℕ) (s : Session N)
      → cleaned ≢ []
      → cached key s.party_cache ≡ some (suc n)
      → resolve_party answers key cleaned s ≡ (returned (some (suc n)), s)
  unfolding ◌>>=◌
  resolve_again key [] n s blank h = absurd (blank refl)
  resolve_again key (c ∷ cleaned) n s blank h = rw h refl

  -- A party that was found or created, and whose number is not 0, is found again without a call, under
  -- every name that is the same but for blanks at its ends and for case.
  pub find_or_create_party-again :
      (to_lower : Units → Units) (name again : Units) (n : ℕ) (s : Session N)
      → to_lower (trim again) ≡ to_lower (trim name)
      → trim again ≢ []
      → (find_or_create_party answers to_lower name s).0 ≡ returned (some (suc n))
      → let s' = (find_or_create_party answers to_lower name s).1 in
        find_or_create_party answers to_lower again s' ≡ (returned (some (suc n)), s')
  unfolding find_or_create_party
  find_or_create_party-again to_lower name again n s same blank e =
      resolve_again (to_lower (trim again)) (trim again) n _ blank (
        ap
          (λ k. cached k (resolve_party answers (to_lower (trim name)) (trim name) s).1.party_cache)
          same
        ∙ resolve_party-Keeps (to_lower (trim name)) (trim name) s n e)

  -- The token `t` is newly issued for the refresh token, and stored.
  abbrev pub IsNew : String → ℕ → String → Session N → Type 0
  IsNew t expiry token s' =
      (s'.access_token ≡ t)
      × (s'.expires_at ≡ expiry)
      × ((rest : List (Call N)) × (s'.calls
            ≡ update_tokens t expiry ∷ refresh_access_token token ∷ rest)
          × (answers.refreshed (refresh_access_token token ∷ rest) ≡ returned (t, expiry)))

  follow-IsNew :
      (token : String) (rest : List (Call N)) (o : Outcome (String × ℕ)) (s : Session N)
      (t : String)
      → answers.refreshed (refresh_access_token token ∷ rest) ≡ o
      → s.calls ≡ refresh_access_token token ∷ rest
      → (follow (keep_token answers) (o, s)).0 ≡ returned t
      → (expiry : ℕ) × IsNew t expiry token (follow (keep_token answers) (o, s)).1
  unfolding ◌>>=◌ perform
  follow-IsNew token rest (thrown m) s t q c e = absurd cc
  follow-IsNew token rest (returned (access, expiry)) s t q c e =
      elim (Option-cases (answers.run (update_tokens access expiry ∷ s.calls))) [
        | inl h ↦
            let k : access ≡ t = returned-inj access t (rw h at e) in
            rw h (
              expiry,
              (
                k,
                refl,
                (
                  rest,
                  ap (λ a. update_tokens a expiry ∷ s.calls) k
                      ∙ ap (λ r. update_tokens t expiry ∷ r) c,
                  q ∙ ap (λ a. returned (a, expiry)) k,
                ),
              ),
            )
        | inr (m, h) ↦ absurd (cc (rw h at e))
      ]

  refresh-IsNew :
      (r : Option String) (s : Session N) (t : String)
      → (refresh answers r s).0 ≡ returned t
      → (expiry : ℕ) × (token : String) × IsNew t expiry token (refresh answers r s).1
  unfolding ◌>>=◌ ask
  refresh-IsNew none s t e = absurd cc
  refresh-IsNew (some token) s t e = elim (Bool-cases (token =s "")) [
    | inl h ↦ absurd (cc (rw h at e))
    | inr h ↦
        let (expiry, new) =
          follow-IsNew token s.calls (answers.refreshed (refresh_access_token token ∷ s.calls))
            (record s { calls = refresh_access_token token ∷ s.calls }) t refl refl (rw h at e) in
        (expiry, token, rw h new)
  ]

  no_refresh :
      (r : Option String) (s : Session N)
      → (r ≡ none) ⊎ (r ≡ some "")
      → refresh answers r s ≡ (thrown reconnect, s)
  no_refresh none s h = refl
  no_refresh (some token) s (inl e) = absurd cc
  no_refresh (some token) s (inr e) = rw ((=s_iff token "").1 (some_inj token "" e)) refl

  -- Which token a step uses: the stored one, with no call and nothing changed, where it is good for more
  -- than a minute. Else, where there is no refresh token, or an empty one, it throws with no call and
  -- nothing changed; and where it returns a token, that was newly issued and is stored with its time.
  pub ensure_fresh_token-fresh :
      (ctx : BatchContext) (s : Session N)
      → let made = ensure_fresh_token answers ctx s in
        (answers.now s.calls + 60000 < s.expires_at → made ≡ (returned s.access_token, s))
        × (s.expires_at ≤ answers.now s.calls + 60000
            → (((ctx.refresh_token ≡ none) ⊎ (ctx.refresh_token ≡ some ""))
                → made ≡ (thrown reconnect, s))
              × ((t : String)
                  → made.0 ≡ returned t
                  → (expiry : ℕ) × (token : String) × IsNew t expiry token made.1))
  unfolding ensure_fresh_token ◌>>=◌
  ensure_fresh_token-fresh ctx s = (
    λ good.
        let h : ltb (answers.now s.calls + 60000) s.expires_at ≡ true = ground (arith, good) in
        rw h refl,
    λ late.
        let h : ltb (answers.now s.calls + 60000) s.expires_at ≡ false = ground (arith, late) in
        rw h (no_refresh ctx.refresh_token s, refresh-IsNew ctx.refresh_token s),
  )
