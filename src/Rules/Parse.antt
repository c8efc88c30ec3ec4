-- ===== src/Rules/Parse.antt =====
-- src/services/rule-parser.service.ts: `parseRuleYaml` and the two block validators. What `yaml.load`
-- returns or throws is a parameter, `load`.
pub mod Laws
use Prim.Native.String as S
use musanad_contracts_backen.Base.{
  ℕ, ◌+◌, String, Bool, true, false, not, ◌||◌, ◌&&◌, Option, none, some, List, [], ◌∷◌, ◌++◌,
  if◌then◌else◌,
}
use musanad_contracts_backen.Js.{
  Runtime, Json, Fields, num, str, arr, obj, end, field, find_field, truthy, to_string, includes,
}

pub record RuleParseError : Type 0 where
  pub message : String
  pub line : Option ℕ

-- `valid` carries the two blocks, `invalid` the errors.
pub data RuleParseResult (N : Type 0) : Type 0 where
  valid : Fields N → Fields N → RuleParseResult N
  invalid : List RuleParseError → RuleParseResult N

-- A value, or an exception with its reason and the 0-based line of its mark.
pub data Loaded (N : Type 0) : Type 0 where
  loaded : Json N → Loaded N
  failed : String → Option ℕ → Loaded N

abbrev pub fault : String → List RuleParseError
fault message = record { message = message; line = none } ∷ []

abbrev pub valid_match_top_keys : List String
valid_match_top_keys = "signal" ∷ "contract" ∷ "joins" ∷ "anyOf" ∷ "not" ∷ []

abbrev pub valid_produce_top_keys : List String
valid_produce_top_keys = "correlation" ∷ "alert" ∷ "advisory" ∷ []

abbrev pub valid_alert_priorities : List String
valid_alert_priorities = "low" ∷ "medium" ∷ "high" ∷ "critical" ∷ []

-- `xs.join(', ')`
abbrev join_more : List String → String
join_more [] = ""
join_more (x ∷ xs) = S.◌++◌ ", " (S.◌++◌ x (join_more xs))

abbrev pub join_comma : List String → String
join_comma [] = ""
join_comma (x ∷ xs) = S.◌++◌ x (join_more xs)

abbrev pub unknown_key : String → String → List String → String
unknown_key which key allowed =
    S.◌++◌ which
      (S.◌++◌ ": unknown top-level key '" (S.◌++◌ key (S.◌++◌ "'. Allowed: " (join_comma allowed))))

module _ {N : Type 0} where
  -- The loop over `Object.keys(block)`.
  unfoldable pub key_errors : String → List String → Fields N → List RuleParseError
  key_errors which allowed end = []
  key_errors which allowed (field k v fs) =
      let rest = key_errors which allowed fs in
      if includes allowed k then rest else fault (unknown_key which k allowed) ++ rest

  abbrev pub is_empty : Fields N → Bool
  is_empty end = true
  is_empty (field k v fs) = false

  unfoldable pub validate_match_block : Fields N → List RuleParseError
  unfolding key_errors
  validate_match_block block =
      key_errors "matchYaml" valid_match_top_keys block
      ++ (if is_empty block
          then fault "matchYaml: match block must have at least one predicate"
          else [])

module _ (R : Runtime) where
  open R use {Num, less, of_ℕ}

  -- `typeof v === 'number' && !(v < 0) && !(v > 1)`
  abbrev pub is_unit_number : Option (Json Num) → Bool
  is_unit_number (some (num n)) = not (less n (of_ℕ 0) || less (of_ℕ 1) n)
  is_unit_number _ = false

  abbrev pub is_string : Option (Json Num) → Bool
  is_string (some (str s)) = true
  is_string _ = false

  -- A correlation that is neither missing, falsy nor a mapping passes unread.
  unfoldable pub correlation_errors : Option (Json Num) → List RuleParseError
  correlation_errors none = fault "produceYaml: 'correlation' sub-block is required"
  correlation_errors (some (obj fs)) =
      (if is_unit_number (find_field "confidenceBase" fs)
        then []
        else fault "produceYaml: correlation.confidenceBase must be a number between 0 and 1")
      ++ (if is_string (find_field "matchReasonTemplate" fs)
          then []
          else fault "produceYaml: correlation.matchReasonTemplate must be a string")
  correlation_errors (some v) =
      if truthy R v then [] else fault "produceYaml: 'correlation' sub-block is required"

  abbrev pub priority_ok : Option (Json Num) → Bool
  priority_ok none = true
  priority_ok (some v) = not (truthy R v) || includes valid_alert_priorities (to_string R v)

  abbrev pub roles_ok : Option (Json Num) → Bool
  roles_ok none = true
  roles_ok (some (arr xs)) = true
  roles_ok (some v) = false

  unfoldable pub alert_errors : Option (Json Num) → List RuleParseError
  unfolding to_string
  alert_errors (some (obj fs)) =
      (if priority_ok (find_field "priority" fs)
        then []
        else fault (
            S.◌++◌ "produceYaml: alert.priority must be one of: "
              (join_comma valid_alert_priorities)))
      ++ (if roles_ok (find_field "assignedRoles" fs)
          then []
          else fault "produceYaml: alert.assignedRoles must be an array")
  alert_errors _ = []

  unfoldable pub validate_produce_block : Fields Num → List RuleParseError
  unfolding key_errors correlation_errors alert_errors
  validate_produce_block block =
      key_errors "produceYaml" valid_produce_top_keys block
      ++ (correlation_errors (find_field "correlation" block)
          ++ alert_errors (find_field "alert" block))

  abbrev pub next_line : Option ℕ → Option ℕ
  next_line none = none
  next_line (some n) = some (n + 1)

  -- One of the two halves of `parseRuleYaml`: the block, and the errors that it adds.
  unfoldable pub parse_half :
      String → (Fields Num → List RuleParseError) → Loaded Num → Fields Num × List RuleParseError
  parse_half which validate (loaded (obj fs)) = (fs, validate fs)
  parse_half which validate (loaded v) =
      (end, fault (S.◌++◌ which " must be a YAML mapping (object)"))
  parse_half which validate (failed reason line) = (
    end,
    record { message = S.◌++◌ which (S.◌++◌ " parse error: " reason); line = next_line line } ∷ [],
  )

  abbrev pub conclude : Fields Num → Fields Num → List RuleParseError → RuleParseResult Num
  conclude m p [] = valid m p
  conclude m p (e ∷ es) = invalid (e ∷ es)

  unfoldable pub parse_rule_yaml : (String → Loaded Num) → String → String → RuleParseResult Num
  unfolding parse_half validate_match_block validate_produce_block
  parse_rule_yaml load match_yaml produce_yaml =
      let (m, errors) = parse_half "matchYaml" validate_match_block (load match_yaml) in
      let (p, more) = parse_half "produceYaml" validate_produce_block (load produce_yaml) in
      conclude m p (errors ++ more)
