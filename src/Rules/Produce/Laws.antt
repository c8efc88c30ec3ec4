-- ===== src/Rules/Produce/Laws.antt =====
-- src/services/rule-evaluator.service.ts and src/services/rule-parser.service.ts: what a produce block
-- gives that the parser has accepted.
use mathlib.Core.Path.{subst}
use musanad_contracts_backen.Base.{
  ℕ, zero, suc, ◌<◌, ◌≡◌, refl, ap, ◌∙◌, ◌⊎◌, inl, inr, String, Bool, true, false, Option, none,
  some, [], ◌∷◌, ◌++◌, codes, length, ◌==◌, ◌=s◌, =s_iff, arith, Bool-cases,
}
use musanad_contracts_backen.Calls.{Units, units}
use musanad_contracts_backen.Js.{
  Runtime, Json, obj, num, Fields, find_field, includes, any, truthy, to_string,
}
use musanad_contracts_backen.Rules.Template.{
  behind_prefix, replace_fields, replace_text, all_fields, all_texts, TemplateValues,
  resolve_template,
}
use musanad_contracts_backen.Rules.Produce.{
  part_field, number_or_none, or_value, resolve_priority, priority_of, evaluate_produce_block,
}
use musanad_contracts_backen.Rules.Parse.{valid_alert_priorities}
use musanad_contracts_backen.Rules.Parse.Laws.{
  IsUnitNumber, IsPriorityValue, IsCorrelation, IsAlert, IsProduceBlock,
}
use musanad_contracts_backen.Rules.Predicates.Overlap.{Has, includes_iff}

abbrev pub has_brace : Units → Bool
has_brace s = any (λ c. c == b'{') s

no_match :
    (c : ℕ) (ps s : Units)
    → has_brace (c ∷ s) ≡ false
    → (behind_prefix (b'{' ∷ ps) (c ∷ s) ≡ none) × (has_brace s ≡ false)
no_match c ps s h = (ground (arith, h), ground (arith, h))

replace_fields_plain :
    (fuel : ℕ) (ps : Units) (value : Units → Units) (s : Units)
    → has_brace s ≡ false
    → length s < fuel
    → replace_fields fuel (b'{' ∷ ps) value s ≡ s
replace_fields_plain zero ps value s h l = absurd (omega (arith, l))
replace_fields_plain (suc fuel) ps value [] h l = refl
replace_fields_plain (suc fuel) ps value (c ∷ s) h l =
    let (n, h') = no_match c ps s h in
    rw (replace_fields, n)
      (ap (λ t. c ∷ t) (replace_fields_plain fuel ps value s h' (omega (arith, l))))

replace_text_plain :
    (fuel : ℕ) (ps text before : Units) (s : Units)
    → has_brace s ≡ false
    → length s < fuel
    → replace_text fuel (b'{' ∷ ps) text before s ≡ s
replace_text_plain zero ps text before s h l = absurd (omega (arith, l))
replace_text_plain (suc fuel) ps text before [] h l = refl
replace_text_plain (suc fuel) ps text before (c ∷ s) h l =
    let (n, h') = no_match c ps s h in
    rw (replace_text, n)
      (ap (λ t. c ∷ t)
        (replace_text_plain fuel ps text (before ++ (c ∷ [])) s h' (omega (arith, l))))

-- A template without a brace is left as it is.
pub resolve_template_plain :
    (v : TemplateValues) (s : Units) → has_brace s ≡ false → resolve_template v s ≡ s
unfolding resolve_template
resolve_template_plain v s h =
    let fields : (ps : Units) (value : Units → Units) → all_fields (b'{' ∷ ps) value s ≡ s =
      λ ps value. replace_fields_plain (suc (length s)) ps value s h (omega arith) in
    let texts : (ps text : Units) → all_texts (b'{' ∷ ps) text s ≡ s =
      λ ps text. replace_text_plain (suc (length s)) ps text [] s h (omega arith) in
    let next_text : (ps text u : Units) → u ≡ s → all_texts (b'{' ∷ ps) text u ≡ s =
      λ ps text u e. ap (all_texts (b'{' ∷ ps) text) e ∙ texts ps text in
    let next_fields : (ps : Units) (value : Units → Units) (u : Units)
        → u ≡ s
        → all_fields (b'{' ∷ ps) value u ≡ s =
      λ ps value u e. ap (all_fields (b'{' ∷ ps) value) e ∙ fields ps value in
    next_text (codes "{match.geography}}") v.geography _ (
      next_text (codes "{match.entity.name}}") v.entity_name _ (
        next_text (codes "{now}}") v.now _ (
          next_fields (codes "{rule.") v.rule_field _ (
            next_fields (codes "{contract.") v.contract_field _ (
              next_text (codes "{contract.counterparty.name}}") v.counterparty_name _
                (fields (codes "{signal.") v.signal_field))))))

module _ (R : Runtime) (half : R.Num) (values : TemplateValues) where
  open R use {Num, less, of_ℕ}

  -- The confidence for a correlation: of a mapping its own number, which is neither below 0 nor above
  -- 1, and of any other value the default.
  abbrev pub IsConfidence : Option (Json Num) → Num → Type 0
  IsConfidence (some (obj fs)) c =
      (find_field "confidenceBase" fs ≡ some (num c))
      × (less c (of_ℕ 0) ≡ false)
      × (less (of_ℕ 1) c ≡ false)
  IsConfidence _ c = c ≡ half

  unit_number-value :
      (o : Option (Json Num))
      → IsUnitNumber R o
      → let c = or_value (number_or_none o) half in
        (o ≡ some (num c)) × (less c (of_ℕ 0) ≡ false) × (less (of_ℕ 1) c ≡ false)
  unit_number-value (some (num n)) (a, b) = (refl, a, b)
  unit_number-value none h = absurd h
  unit_number-value (some v) h = absurd h

  correlation-IsConfidence :
      (o : Option (Json Num))
      → IsCorrelation R o
      → IsConfidence o (or_value (number_or_none (part_field o "confidenceBase")) half)
  correlation-IsConfidence none h = refl
  correlation-IsConfidence (some (obj fs)) (a, b) =
      unit_number-value (find_field "confidenceBase" fs) a
  correlation-IsConfidence (some v) h = refl

  plain_priority :
      (t : String)
      → includes valid_alert_priorities t ≡ true
      → resolve_priority R half values t ≡ units t
  plain_priority t h = elim (Bool-cases ("low" =s t)) [
    | inl e ↦ by_name "low" e refl
    | inr a ↦ elim (Bool-cases ("medium" =s t)) [
      | inl e ↦ by_name "medium" e refl
      | inr b ↦ elim (Bool-cases ("high" =s t)) [
        | inl e ↦ by_name "high" e refl
        | inr c ↦ elim (Bool-cases ("critical" =s t)) [
          | inl e ↦ by_name "critical" e refl
          | inr d ↦ absurd (cc (rw (a, b, c, d) at h))
        ]
      ]
    ]
  ]
    where
      by_name :
          (n : String)
          → (n =s t) ≡ true
          → resolve_priority R half values n ≡ units n
          → resolve_priority R half values t ≡ units t
      by_name n e = subst (λ u. resolve_priority R half values u ≡ units u) ((=s_iff n t).0 e)

  -- The priority for the value of the alert: none if it is missing or falsy, else its text, one of the
  -- four names.
  abbrev pub IsPriority : Option (Json Num) → Option Units → Type 0
  IsPriority none out = out ≡ none
  IsPriority (some v) out =
      ((truthy R v ≡ false) × (out ≡ none))
      ⊎ ((truthy R v ≡ true)
          × (out ≡ some (units (to_string R v)))
          × Has (to_string R v) ("low" ∷ "medium" ∷ "high" ∷ "critical" ∷ []))

  priority_of-IsPriority :
      (o : Option (Json Num)) → IsPriorityValue R o → IsPriority o (priority_of R half values o)
  priority_of-IsPriority none h = refl
  priority_of-IsPriority (some v) h = elim (Bool-cases (truthy R v)) [
    | inr e ↦ inl (e, rw e refl)
    | inl e ↦ elim h [
      | inl f ↦ absurd cc
      | inr m ↦
          let ok = (includes_iff valid_alert_priorities (to_string R v)).1 m in
          inr (e, rw e (ap some (plain_priority (to_string R v) ok)), m)
    ]
  ]

  alert-IsPriority :
      (o : Option (Json Num))
      → IsAlert R o
      → IsPriority (part_field o "priority") (priority_of R half values (part_field o "priority"))
  alert-IsPriority none h = refl
  alert-IsPriority (some (obj fs)) (a, b) = priority_of-IsPriority (find_field "priority" fs) a
  alert-IsPriority (some v) h = refl

  -- What a produce block gives that the parser has accepted: as confidence, where its correlation is a
  -- mapping, that one's own number, which is neither below 0 nor above 1, and else the default; as
  -- priority, none where its alert has none or a falsy one, and else that one's text as it stands, which
  -- is one of the four names.
  pub evaluate_produce_block-accepted :
      (block : Fields Num)
      → IsProduceBlock R block
      → let out = evaluate_produce_block R half values block in
        IsConfidence (find_field "correlation" block) out.confidence
        × IsPriority (part_field (find_field "alert" block) "priority") out.priority
  unfolding evaluate_produce_block
  evaluate_produce_block-accepted block (k, c, a) = (
    correlation-IsConfidence (find_field "correlation" block) c,
    alert-IsPriority (find_field "alert" block) a,
  )
