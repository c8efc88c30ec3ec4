-- ===== src/Auth/Tests.antt =====
-- src/middleware/auth.middleware.ts, src/middleware/error.middleware.ts and
-- src/integrations/uae-pass/state-store.ts: runs on concrete values.
use musanad_contracts_backen.Base.{
  arith, ℕ, ◌-◌, ◌/◌, ◌≤◌, ◌≡◌, refl, ◌≢◌, true, false, Option, none, some, List, [], ◌∷◌, ltb, leb,
  ◌==◌, ◌=s◌, if◌then◌else◌, codes,
}
use musanad_contracts_backen.Js.{Runtime, Json, num, str, obj, end, field, Throws, returns, throws}
use musanad_contracts_backen.Js.Laws.{All}
use musanad_contracts_backen.Rules.Predicates.Overlap.{Has}
use musanad_contracts_backen.Auth.Errors.{Details, Issue, zod, find_detail, error_middleware}
use musanad_contracts_backen.Auth.Errors.Laws.{first_message, error_middleware-zod}
use musanad_contracts_backen.Auth.Guards.{
  User, Request, AccessClaims, RefreshClaims, context_of, or_nil, verify_access_token,
  verify_refresh_token, authenticate, require_module_enabled, authorise,
}
use musanad_contracts_backen.Auth.Guards.Laws.{Proves, tokens_apart, gated_sound}
use musanad_contracts_backen.Auth.StateStore.{
  Store, store_state, consume_state, sweep, get, set, delete, sweep_entries,
}
use musanad_contracts_backen.Auth.StateStore.Refinement.{promises, replies, replies-promises}
use musanad_contracts_backen.Auth.StateStore.Laws.{
  Event, stored, consumed, swept, times_consumed, times_stored, single_use,
}

-- Issues at two paths, one of them twice.
abbrev issues : List Issue
issues =
    record { path = "email" ∷ []; message = "Required" }
    ∷ record { path = "email" ∷ []; message = "Too short" }
    ∷ record { path = "constructor" ∷ []; message = "Unknown" }
    ∷ []

error_middleware-zod_example :
    ((error_middleware (zod issues)).status ≡ 400)
    × ((ds : Details) × ((error_middleware (zod issues)).details ≡ some ds)
        × (find_detail "email" ds ≡ first_message "email" issues))
error_middleware-zod_example = error_middleware-zod issues "email" refl

-- Whole numbers in place of doubles.
abbrev whole : Runtime
whole = record {
  Num = ℕ;
  less = ltb;
  at_most = leb;
  sub = λ a b. a - b;
  quot = λ a b. a / b;
  abs = λ a. a;
  is_finite = λ a. true;
  falsy = λ a. a == 0;
  of_ℕ = λ a. a;
  nan = 999;
  infinity = 100000;
  show = λ a. "7";
  read = λ s. if s =s "7" then 7 else 999;
  date_ms = λ s. 0;
  regex_test = λ p s. none;
}

-- The only valid token is `a`, the only user has the number 7.
abbrev payload : Json ℕ
payload = obj (field "type" (str "access") (field "sub" (num 7) (field "role" (str "legal") end)))

abbrev jwt_verify : List ℕ → Throws (Json ℕ)
jwt_verify [] = throws
jwt_verify (c ∷ s) = if c == b'a' then returns payload else throws

abbrev ann : User ℕ
ann = record {
  id = 7;
  is_active = some true;
  role_name = "legal";
  email = "ann@example.com";
  permissions = some ("contract.read" ∷ "contract.write" ∷ []);
  effective_modules = some ("rules" ∷ []);
}

abbrev get_user : ℕ → Throws (Option (User ℕ))
get_user n = if n == 7 then returns (some ann) else returns none

abbrev asked : Request ℕ
asked = record {
  authorization = some (codes "Bearer a");
  param_id = none;
  user = none;
  auth_user_id = none;
}

abbrev admitted : Request ℕ
admitted = record asked { user = some (context_of ann); auth_user_id = some 7 }

abbrev token_a : List ℕ
token_a = b'a' ∷ []

gated_sound_example :
    (u : User ℕ) × Proves whole jwt_verify get_user asked.authorization u
    × Has "rules" (or_nil u.effective_modules)
    × All (λ p. Has p (or_nil u.permissions)) ("contract.write" ∷ [])
    × (admitted.user ≡ some (context_of u))
    × (admitted.auth_user_id ≡ some u.id)
unfolding authenticate require_module_enabled authorise
gated_sound_example =
    gated_sound whole jwt_verify get_user "rules" ("contract.write" ∷ []) asked admitted refl

abbrev refresh : RefreshClaims whole
refresh = record { sub = 7; aud = ""; iss = ""; iat = 999; exp = 999; jti = "" }

abbrev access : AccessClaims whole
access = record { sub = 7; role = "legal"; aud = ""; iss = ""; iat = 999; exp = 999 }

tokens_apart_example : verify_refresh_token whole jwt_verify token_a ≢ returns refresh
unfolding verify_access_token
tokens_apart_example = tokens_apart whole jwt_verify token_a access refresh refl

-- A state stored, consumed twice, and swept.
abbrev events : List Event
events = stored 0 "s" (some 7) none ∷ consumed 10 "s" ∷ consumed 20 "s" ∷ swept 400000 ∷ []

abbrev empty : Store
empty = record { entries = []; sweeping = false }

abbrev one_state : Store
one_state = record {
  entries = ("s", record { user_id = some 7; created_at = 0; expires_at = 300000 }) ∷ [];
  sweeping = true;
}

state_tests :
    (times_consumed "s" events empty ≡ 1)
    × ((consume_state 300000 "s" one_state).0 ≡ none)
    × ((consume_state 299999 "s" one_state).1.entries ≡ [])
unfolding store_state consume_state sweep get set delete sweep_entries
state_tests = (refl, refl, refl)

single_use_example :
    times_consumed "s" events (record { entries = []; sweeping = false }) ≤ times_stored "s" events
single_use_example = single_use "s" events

replies-promises_example :
    promises events (λ k. none) ≡ replies events (record { entries = []; sweeping = false })
replies-promises_example =
    replies-promises events (omega arith, (omega arith, (omega arith, (omega arith, tt))))
