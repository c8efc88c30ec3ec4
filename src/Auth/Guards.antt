-- ===== src/Auth/Guards.antt =====
-- src/middleware/auth.middleware.ts, src/middleware/module.middleware.ts and the token checks of
-- src/utils/jwt.util.ts. What the JWT library and the database answer are parameters. A middleware
-- calls `next()`, calls `next(err)`, or answers itself.
pub mod Laws
use musanad_contracts_backen.Base.{
  ℕ, String, Bool, true, false, not, ◌&&◌, Option, none, some, List, [], ◌∷◌, ◌=s◌, if◌then◌else◌,
}
use musanad_contracts_backen.Js.{
  Runtime, Json, Fields, obj, str, find_field, option_number, to_number, option_string, to_string,
  includes, any, Throws, returns, throws,
}
use musanad_contracts_backen.Auth.Errors.{ApiError, unauthorized_error, forbidden_error}
use musanad_contracts_backen.Auth.Bearer.{extract_bearer}

pub record AuthUserContext (N : Type 0) : Type 0 where
  pub id : N
  pub role : String
  pub email : String
  pub permissions : List String
  pub effective_modules : List String

-- The row that `fn_user_get_by_id` returns; a field that may be missing is an option.
pub record User (N : Type 0) : Type 0 where
  pub id : N
  pub is_active : Option Bool
  pub role_name : String
  pub email : String
  pub permissions : Option (List String)
  pub effective_modules : Option (List String)

-- The part of a request that the guards read and write: the header, the path parameter `id`, and the
-- user and the user's number that `authenticate` puts in.
pub record Request (N : Type 0) : Type 0 where
  pub authorization : Option (List ℕ)
  pub param_id : Option String
  pub user : Option (AuthUserContext N)
  pub auth_user_id : Option N

pub data Reply : Type 0 where
  error : ApiError → Reply
  module_disabled : String → Reply

pub data Outcome (N : Type 0) : Type 0 where
  pass : Request N → Outcome N
  stop : Reply → Outcome N

-- `a ?? []`
abbrev pub or_nil : Option (List String) → List String
or_nil none = []
or_nil (some xs) = xs

abbrev pub required : Reply
required = error (unauthorized_error "Authentication required")

abbrev pub is_false : Option Bool → Bool
is_false (some false) = true
is_false _ = false

abbrev pub context_of : {N : Type 0} → User N → AuthUserContext N
context_of u = record {
  id = u.id;
  role = u.role_name;
  email = u.email;
  permissions = or_nil u.permissions;
  effective_modules = or_nil u.effective_modules;
}

abbrev pub insufficient : Reply
insufficient = error (forbidden_error "Insufficient permissions")

-- `permissionCodes.filter((p) => !have.has(p)).length > 0`
abbrev pub lacks_one : List String → List String → Bool
lacks_one have [] = false
lacks_one have (p ∷ ps) = if includes have p then lacks_one have ps else true

module _ (R : Runtime) where
  open R use {Num, is_finite, nan, read}

  -- What the two verifiers return, but for the type, which is constant.
  pub record AccessClaims : Type 0 where
    pub sub : Num
    pub role : String
    pub aud : String
    pub iss : String
    pub iat : Num
    pub exp : Num

  pub record RefreshClaims : Type 0 where
    pub sub : Num
    pub aud : String
    pub iss : String
    pub iat : Num
    pub exp : Num
    pub jti : String

  abbrev pub is_text : Option (Json Num) → String → Bool
  is_text (some (str t)) s = t =s s
  is_text _ s = false

  -- `String(v ?? '')`
  abbrev pub string_or_empty : Option (Json Num) → String
  string_or_empty none = ""
  string_or_empty (some Json.null) = ""
  string_or_empty (some v) = to_string R v

  abbrev pub text_claim : String → Fields Num → String
  text_claim k fs = string_or_empty (find_field k fs)

  abbrev pub number_claim : String → Fields Num → Num
  number_claim k fs = option_number R (find_field k fs)

  unfoldable pub access_claims : Fields Num → AccessClaims
  unfolding to_string to_number
  access_claims fs = record {
    sub = number_claim "sub" fs;
    role = text_claim "role" fs;
    aud = text_claim "aud" fs;
    iss = text_claim "iss" fs;
    iat = number_claim "iat" fs;
    exp = number_claim "exp" fs;
  }

  unfoldable pub refresh_claims : Fields Num → RefreshClaims
  unfolding to_string to_number
  refresh_claims fs = record {
    sub = number_claim "sub" fs;
    aud = text_claim "aud" fs;
    iss = text_claim "iss" fs;
    iat = number_claim "iat" fs;
    exp = number_claim "exp" fs;
    jti = text_claim "jti" fs;
  }

  -- The checks of `verifyAccessToken` and `verifyRefreshToken` after `jwt.verify`, for the token's
  -- type; a payload that is no object has none.
  unfoldable pub check_payload : {A : Type 0} → String → (Fields Num → A) → Json Num → Throws A
  check_payload kind claims (obj fs) =
      if is_text (find_field "type" fs) kind then returns (claims fs) else throws
  check_payload kind claims v = throws

  unfoldable pub verified : {A : Type 0} → String → (Fields Num → A) → Throws (Json Num) → Throws A
  unfolding check_payload
  verified kind claims throws = throws
  verified kind claims (returns payload) = check_payload kind claims payload

  -- `jwt_verify` is `jwt.verify` with the service's secret, audience and issuer; it throws on a token
  -- that is not valid.
  module _ (jwt_verify : List ℕ → Throws (Json Num)) where
    unfoldable pub verify_access_token : List ℕ → Throws AccessClaims
    unfolding verified access_claims
    verify_access_token token = verified "access" access_claims (jwt_verify token)

    unfoldable pub verify_refresh_token : List ℕ → Throws RefreshClaims
    unfolding verified refresh_claims
    verify_refresh_token token = verified "refresh" refresh_claims (jwt_verify token)

    -- `get_user` is the call of `fn_user_get_by_id`.
    module _ (get_user : Num → Throws (Option (User Num))) where
      abbrev pub admit : Request Num → Throws (Option (User Num)) → Outcome Num
      admit req throws = stop (error (unauthorized_error "Authentication failed"))
      admit req (returns none) = stop (error (unauthorized_error "User no longer active"))
      admit req (returns (some u)) =
          if is_false u.is_active
          then stop (error (unauthorized_error "User no longer active"))
          else pass (record req { user = some (context_of u); auth_user_id = some u.id })

      abbrev pub admit_claims : Request Num → Throws AccessClaims → Outcome Num
      admit_claims req throws = stop (error (unauthorized_error "Invalid or expired access token"))
      admit_claims req (returns c) = admit req (get_user c.sub)

      abbrev pub missing_header : Reply
      missing_header = error (unauthorized_error "Missing or invalid Authorization header")

      abbrev pub authenticate_token : Request Num → Option (List ℕ) → Outcome Num
      authenticate_token req none = stop missing_header
      authenticate_token req (some []) = stop missing_header
      authenticate_token req (some (c ∷ t)) = admit_claims req (verify_access_token (c ∷ t))

      unfoldable pub authenticate : Request Num → Outcome Num
      unfolding extract_bearer verify_access_token
      authenticate req = authenticate_token req (extract_bearer req.authorization)

  abbrev pub authorise_user : List String → Request Num → Option (AuthUserContext Num) → Outcome Num
  authorise_user codes req none = stop required
  authorise_user codes req (some u) =
      if lacks_one u.permissions codes then stop insufficient else pass req

  unfoldable pub authorise : List String → Request Num → Outcome Num
  authorise codes req = authorise_user codes req req.user

  abbrev pub any_user : List String → Request Num → Option (AuthUserContext Num) → Outcome Num
  any_user codes req none = stop required
  any_user [] req (some u) = pass req
  any_user (p ∷ ps) req (some u) =
      if any (includes u.permissions) (p ∷ ps) then pass req else stop insufficient

  unfoldable pub authorise_any_of : List String → Request Num → Outcome Num
  authorise_any_of codes req = any_user codes req req.user

  abbrev pub target_id : Option String → Num
  target_id none = nan
  target_id (some s) = read s

  -- `same` is `===` on numbers.
  module _ (same : Num → Num → Bool) where
    abbrev pub self_user : List String → Request Num → Option (AuthUserContext Num) → Outcome Num
    self_user codes req none = stop required
    self_user codes req (some u) =
        if is_finite (target_id req.param_id) && same (target_id req.param_id) u.id
        then pass req
        else if any (includes u.permissions) codes
        then pass req
        else stop insufficient

    unfoldable pub authorise_self_or : List String → Request Num → Outcome Num
    authorise_self_or codes req = self_user codes req req.user

  abbrev pub module_user : String → Request Num → Option (AuthUserContext Num) → Outcome Num
  module_user key req none = stop required
  module_user key req (some u) =
      if includes u.effective_modules key then pass req else stop (module_disabled key)

  unfoldable pub require_module_enabled : String → Request Num → Outcome Num
  require_module_enabled key req = module_user key req req.user

  -- Middleware run in the order of registration, until one does not call `next()`.
  abbrev pub then_next : Outcome Num → (Request Num → Outcome Num) → Outcome Num
  then_next (pass req) f = f req
  then_next (stop reply) f = stop reply
