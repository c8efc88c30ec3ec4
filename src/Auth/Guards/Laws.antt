-- ===== src/Auth/Guards/Laws.antt =====
-- src/middleware/auth.middleware.ts and src/middleware/module.middleware.ts: which requests pass
-- the guards.
use mathlib.Core.Path.{subst}
use mathlib.Core.Bool.{false≢true}
use musanad_contracts_backen.Base.{
  some_inj, ℕ, ◌≡◌, refl, sym, ap, ◌∙◌, ◌≢◌, ◌↔◌, inl, inr, String, Bool, true, false, Option, none,
  some, List, [], ◌∷◌, Bool-cases, if◌then◌else◌, =s_iff,
}
use musanad_contracts_backen.Js.{
  Runtime, Json, Fields, obj, str, find_field, includes, Throws, returns, throws,
}
use musanad_contracts_backen.Js.Laws.{All}
use musanad_contracts_backen.Rules.Predicates.Overlap.{Has, includes_iff, Shared, Shared-iff}
use musanad_contracts_backen.Auth.Bearer.{extract_bearer}
use musanad_contracts_backen.Auth.Guards.{
  AuthUserContext, User, Request, Reply, Outcome, pass, stop, or_nil, AccessClaims, RefreshClaims,
  access_claims, refresh_claims, is_text, check_payload, verified, verify_access_token,
  verify_refresh_token, is_false, context_of, admit, admit_claims, authenticate_token, authenticate,
  lacks_one, authorise_user, authorise, any_user, authorise_any_of, module_user,
  require_module_enabled, then_next,
}

lacks_one_iff :
    (have codes : List String) → (lacks_one have codes ≡ false) ↔ All (λ p. Has p have) codes
lacks_one_iff have [] = (λ h. tt, λ h. refl)
lacks_one_iff have (p ∷ ps) = elim (Bool-cases (includes have p)) [
  | inl e ↦ (
    λ h. ((includes_iff have p).0 e, (lacks_one_iff have ps).0 (rw e at h)),
    λ h. rw e ((lacks_one_iff have ps).1 h.1),
  )
  | inr e ↦ (λ h. absurd (cc (rw e at h)), λ h. absurd (cc (e, (includes_iff have p).1 h.0)))
]

module _ (R : Runtime) where
  open R use {Num}

  -- The request passes unchanged.
  abbrev pub Passes : Outcome Num → Request Num → Type 0
  Passes o req = o ≡ pass req

  if_pass_iff :
      (b : Bool) (r : Reply) (req : Request Num)
      → ((if b then pass req else stop r) ≡ pass req) ↔ (b ≡ true)
  if_pass_iff true r req = (λ h. refl, λ h. refl)
  if_pass_iff false r req = (λ h. absurd (cc), λ h. absurd (cc))

  authorise_user_iff :
      (codes : List String) (req : Request Num) (user : Option (AuthUserContext Num))
      → Passes (authorise_user R codes req user) req
        ↔ ((u : AuthUserContext Num) × (user ≡ some u) × All (λ p. Has p u.permissions) codes)
  authorise_user_iff codes req none = (λ h. absurd (cc), λ h. absurd (cc (h.1)))
  authorise_user_iff codes req (some u) = elim (Bool-cases (lacks_one u.permissions codes)) [
    | inl e ↦ (
      λ h. absurd (cc (rw e at h)),
      λ (v, same, all).
          let k : All (λ p. Has p u.permissions) codes =
            subst (λ w. All (λ p. Has p w.permissions) codes) (sym (some_inj u v same)) all in
          absurd (cc (e, (lacks_one_iff u.permissions codes).1 k)),
    )
    | inr e ↦ (λ h. (u, refl, (lacks_one_iff u.permissions codes).0 e), λ h. rw e)
  ]

  -- `authorise(codes)` lets a request pass exactly if it has a user who holds every code.
  pub authorise-pass_iff :
      (codes : List String) (req : Request Num)
      → Passes (authorise R codes req) req
        ↔ ((u : AuthUserContext Num) × (req.user ≡ some u) × All (λ p. Has p u.permissions) codes)
  unfolding authorise
  authorise-pass_iff codes req = authorise_user_iff codes req req.user

  any_user_iff :
      (p : String) (ps : List String) (req : Request Num) (user : Option (AuthUserContext Num))
      → Passes (any_user R (p ∷ ps) req user) req
        ↔ ((u : AuthUserContext Num) × (user ≡ some u) × Shared (p ∷ ps) u.permissions)
  any_user_iff p ps req none = (λ h. absurd (cc), λ h. absurd (cc (h.1)))
  any_user_iff p ps req (some u) = (
    λ h. (u, refl, (Shared-iff (p ∷ ps) u.permissions).0 ((if_pass_iff _ _ req).0 h)),
    λ (v, same, s). (if_pass_iff _ _ req).1 (
        (Shared-iff (p ∷ ps) u.permissions).1
          (subst (λ w. Shared (p ∷ ps) w.permissions) (sym (some_inj u v same)) s)),
  )

  -- `authoriseAnyOf(codes)`, for codes that are not empty, lets a request pass exactly if it has a
  -- user who holds one of them.
  pub authorise_any_of-pass_iff :
      (p : String) (ps : List String) (req : Request Num)
      → Passes (authorise_any_of R (p ∷ ps) req) req
        ↔ ((u : AuthUserContext Num) × (req.user ≡ some u) × Shared (p ∷ ps) u.permissions)
  unfolding authorise_any_of
  authorise_any_of-pass_iff p ps req = any_user_iff p ps req req.user

  is_text_iff : (o : Option (Json Num)) (s : String) → is_text R o s ≡ true → o ≡ some (str s)
  is_text_iff (some (str t)) s h = ap (λ u. some (str u)) ((=s_iff t s).0 h)
  is_text_iff none s h = absurd (cc)
  is_text_iff (some v) s h = absurd (cc)

  check_payload-type :
      {A : Type 0} (kind : String) (f : Fields Num → A) (v : Json Num) (c : A)
      → check_payload R kind f v ≡ returns c
      → (fs : Fields Num) × (v ≡ obj fs) × (find_field "type" fs ≡ some (str kind))
  unfolding check_payload
  check_payload-type kind f (obj fs) c h =
      elim (Bool-cases (is_text R (find_field "type" fs) kind)) [
        | inl e ↦ (fs, refl, is_text_iff _ kind e)
        | inr e ↦ absurd (cc (rw e at h))
      ]
  check_payload-type kind f _ c h = absurd (cc)

  verified-type :
      {A : Type 0} (kind : String) (f : Fields Num → A) (p : Throws (Json Num)) (c : A)
      → verified R kind f p ≡ returns c
      → (fs : Fields Num) × (p ≡ returns (obj fs)) × (find_field "type" fs ≡ some (str kind))
  unfolding verified
  verified-type kind f throws c h = absurd (cc)
  verified-type kind f (returns v) c h =
      let (fs, e, k) = check_payload-type kind f v c h in (fs, ap returns e, k)

  module _ (jwt_verify : List ℕ → Throws (Json Num)) where
    -- No token passes as an access token and as a refresh token, whatever `jwt.verify` accepts.
    pub tokens_apart :
        (token : List ℕ) (a : AccessClaims R) (r : RefreshClaims R)
        → verify_access_token R jwt_verify token ≡ returns a
        → verify_refresh_token R jwt_verify token ≢ returns r
    unfolding verify_access_token verify_refresh_token
    tokens_apart token a r h k =
        let (fs, e, x) = verified-type "access" (access_claims R) (jwt_verify token) a h in
        let (gs, f, y) = verified-type "refresh" (refresh_claims R) (jwt_verify token) r k in
        let both : fs ≡ gs = cc in
        let same : ◌≡◌ {A = Option (Json Num)} (some (str "access")) (some (str "refresh")) =
          sym x ∙ ap (find_field "type") both ∙ y in
        let texts : ◌≡◌ {A = String} "access" "refresh" = cc in
        false≢true ((=s_iff "access" "refresh").1 texts)

    module _ (get_user : Num → Throws (Option (User Num))) where
      -- The user that a token stands for, as `authenticate` finds it: the token is a valid access
      -- token, its subject exists, and is not marked inactive.
      abbrev pub Proves : Option (List ℕ) → User Num → Type 0
      Proves header u =
          (c : ℕ) × (t : List ℕ) × (claims : AccessClaims R) × (extract_bearer header
            ≡ some (c ∷ t))
          × (verify_access_token R jwt_verify (c ∷ t) ≡ returns claims)
          × (get_user claims.sub ≡ returns (some u))
          × (is_false u.is_active ≡ false)

      admit_pass :
          (req req' : Request Num) (o : Throws (Option (User Num)))
          → admit R jwt_verify get_user req o ≡ pass req'
          → (u : User Num) × (o ≡ returns (some u))
            × (is_false u.is_active ≡ false)
            × (req' ≡ record req { user = some (context_of u); auth_user_id = some u.id })
      admit_pass req req' throws h = absurd (cc)
      admit_pass req req' (returns none) h = absurd (cc)
      admit_pass req req' (returns (some u)) h = elim (Bool-cases (is_false u.is_active)) [
        | inl e ↦ absurd (cc (rw e at h))
        | inr e ↦ (u, refl, e, cc (rw e at h))
      ]

      admit_claims_pass :
          (req req' : Request Num) (o : Throws (AccessClaims R))
          → admit_claims R jwt_verify get_user req o ≡ pass req'
          → (c : AccessClaims R) × (u : User Num) × (o ≡ returns c)
            × (get_user c.sub ≡ returns (some u))
            × (is_false u.is_active ≡ false)
            × (req' ≡ record req { user = some (context_of u); auth_user_id = some u.id })
      admit_claims_pass req req' throws h = absurd (cc)
      admit_claims_pass req req' (returns c) h =
          let (u, e, f, g) = admit_pass req req' (get_user c.sub) h in (c, u, refl, e, f, g)

      authenticate_token_pass :
          (req req' : Request Num) (o : Option (List ℕ))
          → authenticate_token R jwt_verify get_user req o ≡ pass req'
          → (c : ℕ) × (t : List ℕ) × (claims : AccessClaims R) × (u : User Num) × (o ≡ some (c ∷ t))
            × (verify_access_token R jwt_verify (c ∷ t) ≡ returns claims)
            × (get_user claims.sub ≡ returns (some u))
            × (is_false u.is_active ≡ false)
            × (req' ≡ record req { user = some (context_of u); auth_user_id = some u.id })
      authenticate_token_pass req req' none h = absurd (cc)
      authenticate_token_pass req req' (some []) h = absurd (cc)
      authenticate_token_pass req req' (some (c ∷ t)) h =
          let (claims, u, e, f, g, k) = admit_claims_pass req req' _ h in
          (c, t, claims, u, refl, e, f, g, k)

      -- `authenticate`, `requireModuleEnabled(key)` and `authorise(codes)` in a row.
      abbrev pub gated : String → List String → Request Num → Outcome Num
      gated key codes req =
          then_next R
            (then_next R (authenticate R jwt_verify get_user req) (require_module_enabled R key))
            (authorise R codes)

      then_next-pass :
          (o : Outcome Num) (f : Request Num → Outcome Num) (req' : Request Num)
          → then_next R o f ≡ pass req'
          → (r : Request Num) × (o ≡ pass r) × (f r ≡ pass req')
      then_next-pass (pass r) f req' h = (r, refl, h)
      then_next-pass (stop x) f req' h = absurd (cc)

      module_pass :
          (key : String) (req req' : Request Num) (user : Option (AuthUserContext Num))
          → module_user R key req user ≡ pass req'
          → (req' ≡ req)
            × ((u : AuthUserContext Num) × (user ≡ some u) × Has key u.effective_modules)
      module_pass key req req' none h = absurd (cc)
      module_pass key req req' (some u) h = elim (Bool-cases (includes u.effective_modules key)) [
        | inl e ↦ (cc (rw e at h), (u, refl, (includes_iff u.effective_modules key).0 e))
        | inr e ↦ absurd (cc (rw e at h))
      ]

      authorise_pass :
          (codes : List String) (req req' : Request Num) (user : Option (AuthUserContext Num))
          → authorise_user R codes req user ≡ pass req'
          → req' ≡ req
      authorise_pass codes req req' none h = absurd (cc)
      authorise_pass codes req req' (some u) h = elim (Bool-cases (lacks_one u.permissions codes)) [
        | inl e ↦ absurd (cc (rw e at h))
        | inr e ↦ cc (rw e at h)
      ]

      -- A handler behind `authenticate`, `requireModuleEnabled(key)` and `authorise(codes)` sees a
      -- request only if its header carries a valid access token of a user who exists, is not
      -- inactive, has the module and holds every code; and it sees that user and the user's number.
      pub gated_sound :
          (key : String) (codes : List String) (req req' : Request Num)
          → gated key codes req ≡ pass req'
          → (u : User Num) × Proves req.authorization u
            × Has key (or_nil u.effective_modules)
            × All (λ p. Has p (or_nil u.permissions)) codes
            × (req'.user ≡ some (context_of u))
            × (req'.auth_user_id ≡ some u.id)
      unfolding authenticate require_module_enabled authorise
      gated_sound key codes req req' h =
          let (r2, first, last) = then_next-pass _ (authorise R codes) req' h in
          let (r1, auth, mid) = then_next-pass _ (require_module_enabled R key) r2 first in
          let (c, t, claims, u, e, f, g, k, l) =
            authenticate_token_pass req r1 (extract_bearer req.authorization) auth in
          let (same2, (w, hw, has)) = module_pass key r1 r2 r1.user mid in
          let same' : req' ≡ r2 = authorise_pass codes r2 req' r2.user last in
          let who : r1.user ≡ some (context_of u) = ap (λ r. r.user) l in
          let who2 : r2.user ≡ some (context_of u) = ap (λ r. r.user) same2 ∙ who in
          let (v, hv, all) = (authorise-pass_iff codes r2).0 (last ∙ ap pass same') in
          let ew : w ≡ context_of u = some_inj w (context_of u) (sym hw ∙ who) in
          let ev : v ≡ context_of u = some_inj v (context_of u) (sym hv ∙ who2) in
          (
            u,
            (c, t, claims, e, f, g, k),
            subst (λ x. Has key x.effective_modules) ew has,
            subst (λ x. All (λ p. Has p x.permissions) codes) ev all,
            ap (λ r. r.user) same' ∙ who2,
            ap (λ r. r.auth_user_id) (same' ∙ same2 ∙ l),
          )
