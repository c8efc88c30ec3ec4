-- ===== src/Auth/Errors.antt =====
-- src/utils/errors.util.ts: the errors that controllers and middleware raise, and
-- src/middleware/error.middleware.ts: the response that each becomes.
pub mod Laws
use musanad_contracts_backen.Base.{
  ℕ, String, Bool, true, false, ◌||◌, Option, none, some, List, [], ◌∷◌, ◌=s◌, leb, if◌then◌else◌,
}
use Prim.Native.String as S
use musanad_contracts_backen.Js.{includes}

-- `fields`, or `details` in a response: messages by path.
abbrev pub Details : Type 0
Details = List (String × String)

pub record ApiError : Type 0 where
  pub status_code : ℕ
  pub code : String
  pub message : String
  pub fields : Option Details

abbrev api_error : ℕ → String → String → Option Details → ApiError
api_error status code message fields = record {
  status_code = status;
  code = code;
  message = message;
  fields = fields;
}

-- The subclasses of `ApiError`, by their constructors.
abbrev pub validation_error : String → Option Details → ApiError
validation_error m f = api_error 400 "VALIDATION_ERROR" m f

abbrev pub unauthorized_error : String → ApiError
unauthorized_error m = api_error 401 "UNAUTHORIZED" m none

abbrev pub invalid_credentials_error : String → ApiError
invalid_credentials_error m = api_error 401 "INVALID_CREDENTIALS" m none

abbrev pub forbidden_error : String → ApiError
forbidden_error m = api_error 403 "FORBIDDEN" m none

abbrev pub not_found_error : String → Option Details → ApiError
not_found_error m f = api_error 404 "NOT_FOUND" m f

abbrev pub conflict_error : String → Option Details → ApiError
conflict_error m f = api_error 409 "CONFLICT" m f

abbrev pub gone_error : String → Option Details → ApiError
gone_error m f = api_error 410 "GONE" m f

abbrev pub unprocessable_entity_error : String → Option Details → ApiError
unprocessable_entity_error m f = api_error 422 "UNPROCESSABLE" m f

abbrev pub locked_error : String → ApiError
locked_error m = api_error 423 "ACCOUNT_LOCKED" m none

abbrev pub rate_limit_error : String → Option Details → ApiError
rate_limit_error m f = api_error 429 "RATE_LIMITED" m f

abbrev pub internal_error : String → ApiError
internal_error m = api_error 500 "INTERNAL_ERROR" m none

abbrev pub not_implemented_error : String → ApiError
not_implemented_error m = api_error 501 "NOT_IMPLEMENTED" m none

abbrev pub service_unavailable_error : String → ApiError
service_unavailable_error m = api_error 503 "SERVICE_UNAVAILABLE" m none

-- An issue of a ZodError: its path, the parts written as texts, and its message.
pub record Issue : Type 0 where
  pub path : List String
  pub message : String

abbrev join_dots_more : List String → String
join_dots_more [] = ""
join_dots_more (x ∷ xs) = S.◌++◌ "." (S.◌++◌ x (join_dots_more xs))

-- `issue.path.length > 0 ? issue.path.join('.') : '_root'`
abbrev pub path_name : List String → String
path_name [] = "_root"
path_name (x ∷ xs) = S.◌++◌ x (join_dots_more xs)

-- The names that `in` finds on an object literal without its own keys.
abbrev pub prototype_names : List String
prototype_names =
    "constructor" ∷ "__defineGetter__" ∷ "__defineSetter__" ∷ "hasOwnProperty" ∷ "__lookupGetter__"
    ∷ "__lookupSetter__" ∷ "isPrototypeOf" ∷ "propertyIsEnumerable" ∷ "toString" ∷ "valueOf"
    ∷ "__proto__" ∷ "toLocaleString" ∷ []

abbrev pub find_detail : String → Details → Option String
find_detail k [] = none
find_detail k ((j, m) ∷ ds) = if j =s k then some m else find_detail k ds

abbrev is_some : Option String → Bool
is_some none = false
is_some (some m) = true

-- `path in fields`
abbrev pub in_fields : String → Details → Bool
in_fields k ds = includes prototype_names k || is_some (find_detail k ds)

-- `fields[path] = message`: a key that is there keeps its place and gets the new message. The loop sets
-- no name of the prototype, for which an object literal would do something else.
abbrev pub set_detail : String → String → Details → Details
set_detail path message [] = (path, message) ∷ []
set_detail path message ((j, m) ∷ ds) =
    let rest = set_detail path message ds in if j =s path then (j, message) ∷ ds else (j, m) ∷ rest

-- The loop of `formatZodError`, by its body for one issue.
abbrev pub collect_one : Details → String → String → Details
collect_one ds path message = if in_fields path ds then ds else set_detail path message ds

unfoldable pub collect : Details → List Issue → Details
collect ds [] = ds
collect ds (i ∷ is) = collect (collect_one ds (path_name i.path) i.message) is

unfoldable pub format_zod_error : List Issue → ApiError
unfolding collect
format_zod_error issues = validation_error "Request validation failed" (some (collect [] issues))

-- What reaches the error middleware; `other` carries the message of an error of any other class.
pub data Raised : Type 0 where
  zod : List Issue → Raised
  api : ApiError → Raised
  other : String → Raised

pub record ErrorResponse : Type 0 where
  pub status : ℕ
  pub code : String
  pub message : String
  pub details : Option Details

abbrev of_api_error : ApiError → ErrorResponse
of_api_error e = record {
  status = e.status_code;
  code = e.code;
  message = e.message;
  details = e.fields;
}

unfoldable pub error_middleware : Raised → ErrorResponse
unfolding format_zod_error
error_middleware (zod issues) = of_api_error (format_zod_error issues)
error_middleware (api e) = of_api_error e
error_middleware (other message) = record {
  status = 500;
  code = "INTERNAL_ERROR";
  message = "An unexpected error occurred";
  details = none;
}
