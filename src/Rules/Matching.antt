-- ===== src/Rules/Matching.antt =====
-- src/services/rule-evaluator.service.ts: the helpers that compare a value with a predicate of a
-- rule, which is a value of unknown shape. A cast of the source (`as string[]`) throws here where
-- the method that is called on it does.
use musanad_contracts_backen.Base.{
  String, Bool, true, Option, none, some, List, [], ◌∷◌, ◌=s◌, ◌++◌, if◌then◌else◌,
}
use musanad_contracts_backen.Js.{
  Runtime, Json, str, arr, to_string, elems, any, is_str, str_includes, member, Throws, returns,
  throws, ◌>>=◌,
}
use musanad_contracts_backen.Rules.Context.{Geography}

-- `if (p[key] !== undefined) { if (!test(p[key])) return false; }`
abbrev pub present : {N : Type 0} → String → (Json N → Throws Bool) → Json N → Throws Bool
present key test p = elim (member p key) [
  | throws ↦ throws
  | returns o ↦ elim o [ none ↦ returns true | some v ↦ test v ]
]

-- `v as string[]`, before a call of `some`, `map` or `every`.
abbrev pub as_array : {N : Type 0} → Json N → Throws (List (Json N))
as_array (arr xs) = returns (elems xs)
as_array _ = throws

-- `(v as string[]).includes(s)`, which a string has too.
abbrev pub as_array_includes : {N : Type 0} → Json N → String → Throws Bool
as_array_includes (arr xs) s = returns (any (λ x. is_str x s) (elems xs))
as_array_includes (str t) s = returns (str_includes t s)
as_array_includes _ s = throws

-- `xs.includes(v)` on an array of strings, for a value of unknown shape.
abbrev pub includes_value : {N : Type 0} → List String → Json N → Bool
includes_value xs v = any (is_str v) xs

-- `(v as string[]).some((g) => xs.includes(g))`
abbrev pub some_included : {N : Type 0} → Json N → List String → Throws Bool
some_included v xs = do gs ← as_array v; returns (any (includes_value xs) gs)

-- `[x, y].filter(Boolean)`: drops `undefined` and the empty string.
abbrev pub filter_option : Option String → List String
filter_option none = []
filter_option (some s) = if s =s "" then [] else s ∷ []

abbrev pub flat_regions : {N : Type 0} → List (Geography N) → List String
flat_regions [] = []
flat_regions (g ∷ gs) =
    filter_option g.named_region ++ (filter_option g.iso_code ++ flat_regions gs)

-- `a ?? b`
abbrev pub or_else {ℓ} : {A : Type ℓ} → Option A → A → A
or_else none b = b
or_else (some a) b = a

module _ (R : Runtime) where
  open R use {Num}

  unfoldable pub match_string_or_array : String → Json Num → Bool
  unfolding to_string
  match_string_or_array value (arr xs) = any (λ x. is_str x value) (elems xs)
  match_string_or_array value p = to_string R p =s value

  -- `Array.isArray(v) ? v : [String(v)]`
  abbrev pub array_or_single : Json Num → List (Json Num)
  array_or_single (arr xs) = elems xs
  array_or_single v = str (to_string R v) ∷ []

  unfoldable pub match_string_or_array_against_list : List String → Json Num → Bool
  unfolding to_string
  match_string_or_array_against_list values p = any (includes_value values) (array_or_single p)
