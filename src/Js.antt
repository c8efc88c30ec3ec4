-- ===== src/Js.antt =====
-- The values that the rule engine computes with: what `JSON.parse` and `yaml.load` return, the
-- conversions of the language that the sources apply to them, and expressions that may throw.
-- Numbers are doubles, which the kernel has not: they and the library calls on them are the
-- record `Runtime`, a parameter of every definition that uses them.
pub mod Laws
use Prim.Native.String as S
use Prim.Native.Char.{code}
use text.Mathlib.Text
use musanad_contracts_backen.Base.{
  ℕ, zero, suc, ◌+◌, max, String, Bool, true, false, not, ◌||◌, Option, none, some, List, [], ◌∷◌,
  ◌=s◌, ◌==◌, if◌then◌else◌,
}

pub record Runtime : Type 1 where
  pub Num : Type 0
  pub less : Num → Num → Bool  -- a < b
  pub at_most : Num → Num → Bool  -- a <= b
  pub sub : Num → Num → Num
  pub quot : Num → Num → Num
  pub abs : Num → Num  -- Math.abs
  pub is_finite : Num → Bool  -- isFinite
  pub falsy : Num → Bool  -- 0 and NaN
  pub of_ℕ : ℕ → Num
  pub nan : Num
  pub infinity : Num
  pub show : Num → String  -- String(n)
  pub read : String → Num  -- Number(s)
  pub date_ms : String → Num  -- new Date(s).getTime()
  pub regex_test : String → String → Option Bool  -- new RegExp(p, 'i').test(s); none: it throws

mutual
  pub data Json (N : Type 0) : Type 0 where
    null : Json N
    bool : Bool → Json N
    num : N → Json N
    str : String → Json N
    arr : Items N → Json N
    obj : Fields N → Json N

  pub data Items (N : Type 0) : Type 0 where
    nil : Items N
    cons : Json N → Items N → Items N

  pub data Fields (N : Type 0) : Type 0 where
    end : Fields N
    field : String → Json N → Fields N → Fields N

unfoldable mutual
  pub depth : {N : Type 0} → Json N → ℕ
  depth null = 0
  depth (bool b) = 0
  depth (num n) = 0
  depth (str s) = 0
  depth (arr xs) = suc (depth_items xs)
  depth (obj fs) = suc (depth_fields fs)

  pub depth_items : {N : Type 0} → Items N → ℕ
  depth_items nil = 0
  depth_items (cons x xs) = max (depth x) (depth_items xs)

  pub depth_fields : {N : Type 0} → Fields N → ℕ
  depth_fields end = 0
  depth_fields (field k v fs) = max (depth v) (depth_fields fs)

abbrev pub elems : {N : Type 0} → Items N → List (Json N)
elems nil = []
elems (cons x xs) = x ∷ elems xs

-- An expression that may throw; what it throws is not kept.
pub data Throws {ℓ} (A : Type ℓ) : Type ℓ where
  returns : A → Throws A
  throws : Throws A

infixl 5 ◌>>=◌
abbrev pub ◌>>=◌ {ℓ κ} : {A : Type ℓ} {B : Type κ} → Throws A → (A → Throws B) → Throws B
returns a >>= f = f a
throws >>= f = throws

-- `if (!p) return false;` and then the rest.
infixr 5 ◌and_then◌
abbrev pub ◌and_then◌ : Throws Bool → Throws Bool → Throws Bool
p and_then q = elim p [ throws ↦ throws | returns b ↦ if b then q else returns false ]

abbrev pub find_field : {N : Type 0} → String → Fields N → Option (Json N)
find_field k end = none
find_field k (field j v fs) = if j =s k then some v else find_field k fs

-- `v[k]` for a key that no array, string, number or prototype has; `none` is `undefined`.
abbrev pub member : {N : Type 0} → Json N → String → Throws (Option (Json N))
member null k = throws
member (obj fs) k = returns (find_field k fs)
member _ k = returns none

-- `hay.includes(needle)` on strings.
abbrev pub str_includes : String → String → Bool
str_includes S.[] needle = needle =s ""
str_includes (S.◌∷◌ c hay) needle = Text.starts_with (S.◌∷◌ c hay) needle || str_includes hay needle

-- `xs.includes(s)` on an array of strings.
abbrev pub includes : List String → String → Bool
includes [] s = false
includes (x ∷ xs) s = x =s s || includes xs s

abbrev pub is_str : {N : Type 0} → Json N → String → Bool
is_str (str t) s = t =s s
is_str _ s = false

abbrev pub any {ℓ} : {A : Type ℓ} → (A → Bool) → List A → Bool
any p [] = false
any p (x ∷ xs) = p x || any p xs

abbrev push_char : S.String → List S.String → List S.String
push_char s [] = []
push_char s (x ∷ xs) = S.◌++◌ s x ∷ xs

-- `s.split('.')`
abbrev pub split_dots : String → List String
split_dots S.[] = "" ∷ []
split_dots (S.◌∷◌ c s) =
    let rest = split_dots s in if code c == b'.' then "" ∷ rest else push_char (S.◌∷◌ c S.[]) rest

module _ (R : Runtime) where
  open R use {Num, falsy, of_ℕ, nan, show, read}

  -- `Boolean(v)`
  abbrev pub truthy : Json Num → Bool
  truthy null = false
  truthy (bool b) = b
  truthy (num n) = not (falsy n)
  truthy (str s) = not (s =s "")
  truthy _ = true

  unfoldable mutual
    -- `String(v)`
    pub to_string : Json Num → String
    to_string null = "null"
    to_string (bool b) = if b then "true" else "false"
    to_string (num n) = show n
    to_string (str s) = s
    to_string (arr xs) = join_items xs
    to_string (obj fs) = "[object Object]"

    -- An element of an array in `String(v)`: `null` is left empty.
    pub element_string : Json Num → String
    element_string null = ""
    element_string (bool b) = if b then "true" else "false"
    element_string (num n) = show n
    element_string (str s) = s
    element_string (arr xs) = join_items xs
    element_string (obj fs) = "[object Object]"

    pub join_items : Items Num → String
    join_items nil = ""
    join_items (cons x xs) = S.◌++◌ (element_string x) (join_more xs)

    pub join_more : Items Num → String
    join_more nil = ""
    join_more (cons x xs) = S.◌++◌ "," (S.◌++◌ (element_string x) (join_more xs))

  abbrev pub option_string : Option (Json Num) → String
  option_string none = "undefined"
  option_string (some v) = to_string v

  -- `Number(v)`, which a comparison of numbers applies too.
  unfoldable pub to_number : Json Num → Num
  unfolding to_string
  to_number null = of_ℕ 0
  to_number (bool b) = if b then of_ℕ 1 else of_ℕ 0
  to_number (num n) = n
  to_number (str s) = read s
  to_number (arr xs) = read (to_string (arr xs))
  to_number (obj fs) = nan

  abbrev pub option_number : Option (Json Num) → Num
  option_number none = nan
  option_number (some v) = to_number v

  -- `xs[k]` on an array, whose keys are the decimal forms of its indices and `length`.
  unfoldable pub element : ℕ → Items Num → String → Option (Json Num)
  element i nil k = if k =s "length" then some (num (of_ℕ i)) else none
  element i (cons x xs) k =
      let later = element (i + 1) xs k in if k =s show (of_ℕ i) then some x else later

  -- `getNestedValue` on the parts of the path: the loop, from `current`.
  unfoldable pub walk : Option (Json Num) → List String → Option (Json Num)
  unfolding element
  walk current [] = current
  walk (some (obj fs)) (part ∷ parts) = walk (find_field part fs) parts
  walk (some (arr xs)) (part ∷ parts) = walk (element 0 xs part) parts
  walk _ (part ∷ parts) = none

  -- `getNestedValue(v, path)`; a path that is no string has no `split` and throws.
  unfoldable pub get_nested_value : Json Num → Option (Json Num) → Throws (Option (Json Num))
  unfolding walk
  get_nested_value v (some (str path)) = returns (walk (some v) (split_dots path))
  get_nested_value v _ = throws
