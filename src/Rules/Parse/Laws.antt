-- ===== src/Rules/Parse/Laws.antt =====
-- src/services/rule-parser.service.ts: which pairs of texts `parseRuleYaml` accepts.
use musanad_contracts_backen.Base.{
  ◌≡◌, refl, ◌↔◌, ◌≢◌, ◌⊎◌, arith, inl, inr, String, Bool, true, false, Option, none, some, List,
  [], ◌∷◌, ◌++◌, Bool-cases, if◌then◌else◌,
}
use musanad_contracts_backen.Js.{
  Runtime, Json, Fields, num, str, arr, obj, end, field, find_field, truthy, to_string, includes,
}
use musanad_contracts_backen.Rules.Predicates.Overlap.{Has, includes_iff}
use musanad_contracts_backen.Rules.Parse.{
  RuleParseError, valid, Loaded, loaded, failed, key_errors, valid_match_top_keys,
  valid_produce_top_keys, validate_match_block, correlation_errors, alert_errors,
  validate_produce_block, parse_half, conclude, parse_rule_yaml, is_unit_number, is_string,
  priority_ok, roles_ok, valid_alert_priorities,
}

append_nil_iff {ℓ} : {A : Type ℓ} (xs ys : List A) → (xs ++ ys ≡ []) ↔ ((xs ≡ []) × (ys ≡ []))
append_nil_iff [] ys = (λ h. (refl, h), λ h. h.1)
append_nil_iff (x ∷ xs) ys = (λ h. absurd (cc), λ h. absurd (cc (h.0)))

if_nil_iff : (b : Bool) (e : RuleParseError) → ((if b then [] else e ∷ []) ≡ []) ↔ (b ≡ true)
if_nil_iff true e = (λ h. refl, λ h. refl)
if_nil_iff false e = (λ h. cc, λ h. cc)

module _ {N : Type 0} where
  -- Every key of a mapping is one of the allowed ones.
  abbrev pub KeysIn : List String → Fields N → Type 0
  KeysIn allowed end = Unit {0}
  KeysIn allowed (field k v fs) = Has k allowed × KeysIn allowed fs

  key_errors-nil_iff :
      (which : String) (allowed : List String) (fs : Fields N)
      → (key_errors which allowed fs ≡ []) ↔ KeysIn allowed fs
  unfolding key_errors
  key_errors-nil_iff which allowed end = (λ h. tt, λ h. refl)
  key_errors-nil_iff which allowed (field k v fs) = elim (Bool-cases (includes allowed k)) [
    | inl e ↦ (
      λ h. ((includes_iff allowed k).0 e, (key_errors-nil_iff which allowed fs).0 (rw e at h)),
      λ h. rw e ((key_errors-nil_iff which allowed fs).1 h.1),
    )
    | inr e ↦ (λ h. absurd (cc (rw e at h)), λ h. absurd (cc (e, (includes_iff allowed k).1 h.0)))
  ]

  -- A match block: one key at least, and no other key than the five.
  abbrev pub IsMatchBlock : Fields N → Type 0
  IsMatchBlock fs = KeysIn ("signal" ∷ "contract" ∷ "joins" ∷ "anyOf" ∷ "not" ∷ []) fs × (fs ≢ end)

  validate_match-nil_iff : (fs : Fields N) → (validate_match_block fs ≡ []) ↔ IsMatchBlock fs
  unfolding validate_match_block
  validate_match-nil_iff end = (λ h. absurd (cc), λ h. absurd (h.1 refl))
  validate_match-nil_iff (field k v fs) = (
    λ h. (
      (key_errors-nil_iff "matchYaml" valid_match_top_keys (field k v fs)).0
          ((append_nil_iff _ _).0 h).0,
      cc,
    ),
    λ h.
        (append_nil_iff _ _).1
          ((key_errors-nil_iff "matchYaml" valid_match_top_keys (field k v fs)).1 h.0, refl),
  )

module _ (R : Runtime) where
  open R use {Num, less, of_ℕ}

  -- A number that is neither below 0 nor above 1, as NaN is.
  abbrev pub IsUnitNumber : Option (Json Num) → Type 0
  IsUnitNumber (some (num n)) = (less n (of_ℕ 0) ≡ false) × (less (of_ℕ 1) n ≡ false)
  IsUnitNumber _ = ⊥

  abbrev pub IsText : Option (Json Num) → Type 0
  IsText (some (str s)) = Unit {0}
  IsText _ = ⊥

  -- Missing, falsy, or one of the four names.
  abbrev pub IsPriorityValue : Option (Json Num) → Type 0
  IsPriorityValue none = Unit {0}
  IsPriorityValue (some v) =
      (truthy R v ≡ false) ⊎ Has (to_string R v) ("low" ∷ "medium" ∷ "high" ∷ "critical" ∷ [])

  -- Missing, or an array.
  abbrev pub IsRoles : Option (Json Num) → Type 0
  IsRoles none = Unit {0}
  IsRoles (some (arr xs)) = Unit {0}
  IsRoles (some v) = ⊥

  -- A mapping with such a `confidenceBase` and a text as `matchReasonTemplate`, or any other value
  -- that is truthy.
  abbrev pub IsCorrelation : Option (Json Num) → Type 0
  IsCorrelation none = ⊥
  IsCorrelation (some (obj fs)) =
      IsUnitNumber (find_field "confidenceBase" fs) × IsText (find_field "matchReasonTemplate" fs)
  IsCorrelation (some v) = truthy R v ≡ true

  -- No mapping, or one with such a `priority` and such `assignedRoles`.
  abbrev pub IsAlert : Option (Json Num) → Type 0
  IsAlert (some (obj fs)) =
      IsPriorityValue (find_field "priority" fs) × IsRoles (find_field "assignedRoles" fs)
  IsAlert _ = Unit {0}

  is_unit_number_iff : (o : Option (Json Num)) → (is_unit_number R o ≡ true) ↔ IsUnitNumber o
  is_unit_number_iff none = (λ h. absurd cc, λ h. absurd h)
  is_unit_number_iff (some (num n)) =
      (λ h. (ground (arith, h), ground (arith, h)), λ (a, b). rw (a, b) refl)
  is_unit_number_iff (some v) = (λ h. absurd (cc h), λ h. absurd h)

  is_string_iff : (o : Option (Json Num)) → (is_string R o ≡ true) ↔ IsText o
  is_string_iff none = (λ h. absurd cc, λ h. absurd h)
  is_string_iff (some (str s)) = (λ h. tt, λ h. refl)
  is_string_iff (some v) = (λ h. absurd (cc h), λ h. absurd h)

  priority_ok_iff : (o : Option (Json Num)) → (priority_ok R o ≡ true) ↔ IsPriorityValue o
  priority_ok_iff none = (λ h. tt, λ h. refl)
  priority_ok_iff (some v) = elim (Bool-cases (truthy R v)) [
    | inr e ↦ (λ h. inl e, λ h. rw e refl)
    | inl e ↦ (
      λ h. inr ((includes_iff valid_alert_priorities (to_string R v)).0 (rw e at h)),
      λ h. elim h [
        | inl f ↦ absurd cc
        | inr m ↦ rw e ((includes_iff valid_alert_priorities (to_string R v)).1 m)
      ],
    )
  ]

  roles_ok_iff : (o : Option (Json Num)) → (roles_ok R o ≡ true) ↔ IsRoles o
  roles_ok_iff none = (λ h. tt, λ h. refl)
  roles_ok_iff (some (arr xs)) = (λ h. tt, λ h. refl)
  roles_ok_iff (some v) = (λ h. absurd (cc h), λ h. absurd h)

  both_iff :
      {P Q : Type 0} {a b : Bool} {X : Type 0}
      → X ↔ ((a ≡ true) × (b ≡ true))
      → (a ≡ true) ↔ P
      → (b ≡ true) ↔ Q
      → X ↔ (P × Q)
  both_iff both f g = (λ x. (f.0 (both.0 x).0, g.0 (both.0 x).1), λ (p, q). both.1 (f.1 p, g.1 q))

  abbrev pub IsProduceBlock : Fields Num → Type 0
  IsProduceBlock fs =
      KeysIn ("correlation" ∷ "alert" ∷ "advisory" ∷ []) fs
      × IsCorrelation (find_field "correlation" fs)
      × IsAlert (find_field "alert" fs)

  two_ifs_iff :
      (a b : Bool) (e f : RuleParseError)
      → (((if a then [] else e ∷ []) ++ (if b then [] else f ∷ [])) ≡ [])
        ↔ ((a ≡ true) × (b ≡ true))
  two_ifs_iff true b e f = (λ h. (refl, (if_nil_iff b f).0 h), λ h. (if_nil_iff b f).1 h.1)
  two_ifs_iff false b e f = (λ h. absurd (cc), λ h. absurd (cc (h.0)))

  IsCorrelation-nil_iff : (o : Option (Json Num)) → (correlation_errors R o ≡ []) ↔ IsCorrelation o
  unfolding correlation_errors
  IsCorrelation-nil_iff none = (λ h. cc, λ h. absurd h)
  IsCorrelation-nil_iff (some (obj fs)) =
      both_iff (two_ifs_iff _ _ _ _) (is_unit_number_iff (find_field "confidenceBase" fs))
        (is_string_iff (find_field "matchReasonTemplate" fs))
  IsCorrelation-nil_iff (some v) =
      if_nil_iff (truthy R v)
        (record { message = "produceYaml: 'correlation' sub-block is required"; line = none })

  IsAlert-nil_iff : (o : Option (Json Num)) → (alert_errors R o ≡ []) ↔ IsAlert o
  unfolding alert_errors
  IsAlert-nil_iff (some (obj fs)) =
      both_iff (two_ifs_iff _ _ _ _) (priority_ok_iff (find_field "priority" fs))
        (roles_ok_iff (find_field "assignedRoles" fs))
  IsAlert-nil_iff (some v) = (λ h. tt, λ h. refl)
  IsAlert-nil_iff none = (λ h. tt, λ h. refl)

  validate_produce-nil_iff :
      (fs : Fields Num) → (validate_produce_block R fs ≡ []) ↔ IsProduceBlock fs
  unfolding validate_produce_block
  validate_produce-nil_iff fs = (
    λ h.
        let (k, rest) = (append_nil_iff _ _).0 h in
        let (c, a) = (append_nil_iff _ _).0 rest in
        (
          (key_errors-nil_iff "produceYaml" valid_produce_top_keys fs).0 k,
          (IsCorrelation-nil_iff _).0 c,
          (IsAlert-nil_iff _).0 a,
        ),
    λ (k, c, a). (append_nil_iff _ _).1 (
      (key_errors-nil_iff "produceYaml" valid_produce_top_keys fs).1 k,
      (append_nil_iff _ _).1 ((IsCorrelation-nil_iff _).1 c, (IsAlert-nil_iff _).1 a),
    ),
  )

  half-nil_iff :
      (which : String) (validate : Fields Num → List RuleParseError) (l : Loaded Num)
      (fs : Fields Num)
      → (((parse_half R which validate l).0 ≡ fs) × ((parse_half R which validate l).1 ≡ []))
        ↔ ((l ≡ loaded (obj fs)) × (validate fs ≡ []))
  unfolding parse_half
  half-nil_iff which validate (loaded (obj gs)) fs =
      (λ h. (cc (h.0), rw (← h.0) h.1), λ h. let e : gs ≡ fs = cc (h.0) in (e, rw e h.1))
  half-nil_iff which validate (loaded v) fs = (λ h. absurd (cc (h.1)), λ h. absurd (cc (h.0)))
  half-nil_iff which validate (failed r l) fs = (λ h. absurd (cc (h.1)), λ h. absurd (cc (h.0)))

  conclude-valid_iff :
      (a b m p : Fields Num) (es : List RuleParseError)
      → (conclude R a b es ≡ valid m p) ↔ ((a ≡ m) × (b ≡ p) × (es ≡ []))
  conclude-valid_iff a b m p [] = (λ h. (cc, cc, refl), λ h. cc)
  conclude-valid_iff a b m p (e ∷ es) = (λ h. absurd (cc), λ h. absurd (cc (h.2)))

  module _ (load : String → Loaded Num) where
    -- `parseRuleYaml` accepts two texts, with the blocks `m` and `p`, exactly when YAML reads them as
    -- the mappings `m` and `p`; `m` has a key, and no other than `signal`, `contract`, `joins`, `anyOf`
    -- and `not`; `p` has no other key than `correlation`, `alert` and `advisory`; its correlation is a
    -- mapping with a `confidenceBase` that is a number neither below 0 nor above 1 and a text as
    -- `matchReasonTemplate`, or it is any other value that is truthy; and its alert is no mapping, or one
    -- whose `priority` is missing, falsy or one of the four names, and whose `assignedRoles` are missing or
    -- an array.
    pub parse-valid_iff :
        (match_yaml produce_yaml : String) (m p : Fields Num)
        → (parse_rule_yaml R load match_yaml produce_yaml ≡ valid m p) ↔ (
            (load match_yaml ≡ loaded (obj m))
            × (load produce_yaml ≡ loaded (obj p))
            × IsMatchBlock m
            × IsProduceBlock p)
    unfolding parse_rule_yaml
    parse-valid_iff match_yaml produce_yaml m p = (
      λ h.
          let (a, b, e) = (conclude-valid_iff _ _ m p _).0 h in
          let (e1, e2) = (append_nil_iff _ _).0 e in
          let (l1, v1) =
            (half-nil_iff "matchYaml" validate_match_block (load match_yaml) m).0 (a, e1) in
          let (l2, v2) =
            (half-nil_iff "produceYaml" (validate_produce_block R) (load produce_yaml) p).0
              (b, e2) in
          (l1, l2, (validate_match-nil_iff m).0 v1, (validate_produce-nil_iff p).0 v2),
      λ (l1, l2, v1, v2).
          let (a, e1) =
            (half-nil_iff "matchYaml" validate_match_block (load match_yaml) m).1
              (l1, (validate_match-nil_iff m).1 v1) in
          let (b, e2) =
            (half-nil_iff "produceYaml" (validate_produce_block R) (load produce_yaml) p).1
              (l2, (validate_produce-nil_iff p).1 v2) in
          (conclude-valid_iff _ _ m p _).1 (a, b, (append_nil_iff _ _).1 (e1, e2)),
    )
