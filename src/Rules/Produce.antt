-- ===== src/Rules/Produce.antt =====
-- src/services/rule-evaluator.service.ts: `evaluateProduceBlock`. Texts that are resolved are lists of
-- code units.
pub mod Laws
use Prim.Native.String as S
use text.Mathlib.Text
use musanad_contracts_backen.Base.{
  String, Bool, true, false, Option, none, some, List, [], ◌∷◌, map, if◌then◌else◌,
}
use musanad_contracts_backen.Calls.{Units, units}
use musanad_contracts_backen.Js.{
  Runtime, Json, obj, num, str, arr, Fields, find_field, elems, truthy, to_string,
}
use musanad_contracts_backen.Rules.Template.{TemplateValues, resolve_template}

pub record Produced (N : Type 0) : Type 0 where
  pub confidence : N
  pub match_reason : Units
  pub priority : Option Units
  pub assigned_roles : Option (List String)
  pub sla_hours : Option N
  pub expires_at : Option String

-- A field of `produceBlock[part] ?? {}`; only mappings have fields.
abbrev pub part_field : {N : Type 0} → Option (Json N) → String → Option (Json N)
part_field (some (obj fs)) key = find_field key fs
part_field _ key = none

abbrev pub number_or_none : {N : Type 0} → Option (Json N) → Option N
number_or_none (some (num n)) = some n
number_or_none _ = none

abbrev pub string_or_none : {N : Type 0} → Option (Json N) → Option String
string_or_none (some (str s)) = some s
string_or_none _ = none

abbrev pub or_value {ℓ} : {A : Type ℓ} → Option A → A → A
or_value none a = a
or_value (some b) a = b

-- `half` is the default confidence, 0.5.
module _ (R : Runtime) (half : R.Num) (values : TemplateValues) where
  open R use {Num}

  abbrev pub roles_of : Option (Json Num) → Option (List String)
  roles_of (some (arr xs)) = some (map (to_string R) (elems xs))
  roles_of _ = none

  abbrev pub resolve_priority : String → Units
  resolve_priority text =
      if Text.starts_with text "$" then resolve_template values (units text) else units text

  abbrev pub priority_of : Option (Json Num) → Option Units
  priority_of none = none
  priority_of (some v) = if truthy R v then some (resolve_priority (to_string R v)) else none

  unfoldable pub evaluate_produce_block : Fields Num → Produced Num
  unfolding resolve_template to_string units
  evaluate_produce_block block =
      let correlation = find_field "correlation" block in
      let alert = find_field "alert" block in
      record {
        confidence = or_value (number_or_none (part_field correlation "confidenceBase")) half;
        match_reason =
            resolve_template values
              (units (or_value (string_or_none (part_field correlation "matchReasonTemplate")) ""));
        priority = priority_of (part_field alert "priority");
        assigned_roles = roles_of (part_field alert "assignedRoles");
        sla_hours = number_or_none (part_field alert "slaHours");
        expires_at = string_or_none (part_field correlation "expiresAt");
      }
