-- ===== src/Ingest/Drive/Parties.antt =====
-- src/services/migration-orchestrator.service.ts: the token of the drive, and the parties that the
-- contracts of a batch name.
pub mod Laws
use musanad_contracts_backen.Base.{
  ℕ, zero, suc, ◌+◌, String, Bool, true, false, Option, none, some, List, [], ◌∷◌, ltb, ◌==◌, ◌=s◌,
  codes, if◌then◌else◌,
}
use musanad_contracts_backen.Chars.{trim}
use musanad_contracts_backen.Calls.{Units, same_units, Outcome, returned, thrown}
use musanad_contracts_backen.Ingest.Drive.Session.{
  refresh_access_token, update_tokens, lookup_party, create_party, Answers, BatchContext, Session,
  Action, pure, raise, gets, modify, ◌>>=◌, ◌>>◌, ask, perform, attempt,
}

abbrev pub reconnect : Units
reconnect = codes "Token expired and no refresh token available — reconnect required"

-- `cache.get(key)`, where an id 0 is taken for none.
abbrev pub cached : Units → List (Units × ℕ) → Option ℕ
cached key [] = none
cached key ((k, zero) ∷ cache) =
    let rest = cached key cache in if same_units key k then none else rest
cached key ((k, suc n) ∷ cache) =
    let rest = cached key cache in if same_units key k then some (suc n) else rest

module _ {N : Type 0} (answers : Answers N) where
  -- The token that is stored, where it is good for a minute more.
  abbrev stored_token : ℕ → Session N → Option String
  stored_token now s = if ltb (now + 60000) s.expires_at then some s.access_token else none

  -- What follows the refresh.
  abbrev pub keep_token : String × ℕ → Action N String
  keep_token (access, expiry) = do
    modify (λ s. record s { access_token = access; expires_at = expiry })
    perform answers (update_tokens access expiry)
    gets (λ s. s.access_token)

  abbrev pub refresh : Option String → Action N String
  refresh none = raise reconnect
  refresh (some token) =
      if token =s ""
      then raise reconnect
      else (ask answers.refreshed (refresh_access_token token) >>= keep_token)

  unfoldable pub ensure_fresh_token : BatchContext → Action N String
  ensure_fresh_token ctx = do
    token ← gets (λ s. stored_token (answers.now s.calls) s)
    elim token [ some t ↦ pure t | none ↦ refresh ctx.refresh_token ]

  -- `args.cache.set(key, id)`; a later entry hides an earlier one.
  abbrev pub remember : Units → ℕ → Action N (Unit {0})
  remember key id = modify (λ s. record s { party_cache = (key, id) ∷ s.party_cache })

  -- What the creation gave: an exception leaves the party unbound, as does an id that is no number.
  abbrev pub after_create : Units → Outcome (Option ℕ) → Action N (Option ℕ)
  after_create key (thrown m) = pure none
  after_create key (returned none) = pure none
  after_create key (returned (some id)) = do remember key id; pure (some id)

  abbrev pub after_lookup : Units → Units → Option ℕ → Action N (Option ℕ)
  after_lookup key cleaned (some id) = do remember key id; pure (some id)
  after_lookup key cleaned none = do
    created ← attempt (ask answers.new_party (create_party cleaned))
    after_create key created

  abbrev pub after_cache : Units → Units → Option ℕ → Action N (Option ℕ)
  after_cache key cleaned (some id) = pure (some id)
  after_cache key cleaned none = do
    exact ← ask answers.party (lookup_party cleaned)
    after_lookup key cleaned exact

  abbrev pub resolve_party : Units → Units → Action N (Option ℕ)
  resolve_party key [] = pure none
  resolve_party key (c ∷ cleaned) = do
    known ← gets (λ s. cached key s.party_cache)
    after_cache key (c ∷ cleaned) known

  -- `to_lower` is `toLowerCase`.
  unfoldable pub find_or_create_party : (to_lower : Units → Units) → Units → Action N (Option ℕ)
  find_or_create_party to_lower name = resolve_party (to_lower (trim name)) (trim name)
