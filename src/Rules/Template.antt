-- ===== src/Rules/Template.antt =====
-- src/services/rule-evaluator.service.ts: `resolveTemplate`, on texts as lists of code units. The fields
-- of the signal, the contract and the rule are parameters, `String(object[key] ?? '')` for each key.
use musanad_contracts_backen.Base.{
  ℕ, zero, suc, Bool, ◌&&◌, ◌||◌, Option, none, some, [], ◌∷◌, ◌++◌, codes, length, leb, ◌==◌,
  if◌then◌else◌,
}
use musanad_contracts_backen.Calls.{Units}

-- `\w`
abbrev pub is_word : ℕ → Bool
is_word c =
    (leb b'a' c && leb c b'z')
    || (leb b'A' c && leb c b'Z')
    || (leb b'0' c && leb c b'9')
    || c == b'_'

-- What stands behind `prefix`; none: the text does not start with it.
abbrev pub behind_prefix : Units → Units → Option Units
behind_prefix [] s = some s
behind_prefix (p ∷ ps) [] = none
behind_prefix (p ∷ ps) (c ∷ s) = let rest = behind_prefix ps s in if p == c then rest else none

-- The word at the start, and what stands behind it.
abbrev pub split_word : Units → Units × Units
split_word [] = ([], [])
split_word (c ∷ s) =
    let (w, rest) = split_word s in if is_word c then (c ∷ w, rest) else ([], c ∷ s)

abbrev pub close_braces : Units × Units → Option (Units × Units)
close_braces ([], rest) = none
close_braces (c ∷ w, rest) = elim (behind_prefix (codes "}}") rest) [
  | none ↦ none
  | some s ↦ some (c ∷ w, s)
]

abbrev pub match_key : Option Units → Option (Units × Units)
match_key none = none
match_key (some s) = close_braces (split_word s)

-- `s.replace(/\{\{name\.(\w+)\}\}/g, (_, key) => value(key))`, for the pattern up to its dot.
abbrev pub replace_fields : (fuel : ℕ) (pattern : Units) (value : Units → Units) → Units → Units
replace_fields zero pattern value s = []
replace_fields (suc fuel) pattern value [] = []
replace_fields (suc fuel) pattern value (c ∷ s) = elim (match_key (behind_prefix pattern (c ∷ s))) [
  | none ↦ c ∷ replace_fields fuel pattern value s
  | some (key, rest) ↦ value key ++ replace_fields fuel pattern value rest
]

-- A replacement that is a text, in which `$` has a meaning.
abbrev pub expand : (before matched after : Units) → Units → Units
expand before matched after [] = []
expand before matched after (c ∷ []) = c ∷ []
expand before matched after (c ∷ d ∷ s) =
    let rest = expand before matched after s in
    let next = expand before matched after (d ∷ s) in
    if c == b'$'
    then (if d == b'$'
        then b'$' ∷ rest
        else if d == b'&'
        then matched ++ rest
        else if d == 96
        then before ++ rest
        else if d == 39
        then after ++ rest
        else c ∷ next)
    else c ∷ next

-- `s.replace(/pattern/g, text)`; `before` is what stands before `s`.
abbrev pub replace_text : (fuel : ℕ) (pattern text before : Units) → Units → Units
replace_text zero pattern text before s = []
replace_text (suc fuel) pattern text before [] = []
replace_text (suc fuel) pattern text before (c ∷ s) = elim (behind_prefix pattern (c ∷ s)) [
  | none ↦ c ∷ replace_text fuel pattern text (before ++ (c ∷ [])) s
  | some rest ↦
      expand before pattern rest text ++ replace_text fuel pattern text (before ++ pattern) rest
]

abbrev pub all_fields : (pattern : Units) (value : Units → Units) → Units → Units
all_fields pattern value s = replace_fields (suc (length s)) pattern value s

abbrev pub all_texts : (pattern text : Units) → Units → Units
all_texts pattern text s = replace_text (suc (length s)) pattern text [] s

-- What the templates read. `entity_name` and `geography` are those of the first match, or empty.
pub record TemplateValues : Type 0 where
  pub signal_field : Units → Units
  pub contract_field : Units → Units
  pub rule_field : Units → Units
  pub counterparty_name : Units
  pub now : Units
  pub entity_name : Units
  pub geography : Units

unfoldable pub resolve_template : TemplateValues → Units → Units
resolve_template v template = all_texts (codes "{{match.geography}}") v.geography (
    all_texts (codes "{{match.entity.name}}") v.entity_name (
      all_texts (codes "{{now}}") v.now (
        all_fields (codes "{{rule.") v.rule_field (
          all_fields (codes "{{contract.") v.contract_field (
            all_texts (codes "{{contract.counterparty.name}}") v.counterparty_name
              (all_fields (codes "{{signal.") v.signal_field template))))))
