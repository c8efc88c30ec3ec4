-- ===== src/Rules/Predicates/Signal.antt =====
-- src/services/rule-evaluator.service.ts, `evalSignalPredicates`: the twelve checks of a signal
-- block, each a function of the predicate's value, in the order of the source.
use musanad_contracts_backen.Base.{
  ℕ, ◌+◌, String, Bool, true, false, not, Option, none, some, List, [], ◌∷◌, map, ltb, ◌=s◌,
  if◌then◌else◌,
}
use musanad_contracts_backen.Js.{
  Runtime, Json, truthy, to_string, to_number, option_string, option_number, includes, member,
  get_nested_value, Throws, returns, ◌>>=◌, ◌and_then◌,
}
use musanad_contracts_backen.Rules.Context.{SignalContext, EvaluationContext}
use musanad_contracts_backen.Rules.Matching.{
  present, as_array, as_array_includes, some_included, flat_regions, or_else, match_string_or_array,
  match_string_or_array_against_list,
}

abbrev pub severity_order : List String
severity_order = "low" ∷ "medium" ∷ "high" ∷ "critical" ∷ []

-- `xs.indexOf(s)`; `none` is -1.
unfoldable pub index_of : ℕ → List String → String → Option ℕ
index_of i [] s = none
index_of i (x ∷ xs) s = let later = index_of (i + 1) xs s in if x =s s then some i else later

-- `!(minIdx < 0 || sigIdx < 0 || sigIdx < minIdx)`
abbrev pub rank_reaches : Option ℕ → Option ℕ → Bool
rank_reaches (some least) (some rank) = not (ltb rank least)
rank_reaches _ _ = false

abbrev is_nil {ℓ} : {A : Type ℓ} → List A → Bool
is_nil [] = true
is_nil (x ∷ xs) = false

abbrev same : Bool → Bool → Bool
same true b = b
same false b = not b

module _ (R : Runtime) where
  open R use {Num, less, sub, quot, of_ℕ, date_ms, regex_test}

  unfoldable pub severity_at_least : String → Json Num → Bool
  unfolding index_of to_string
  severity_at_least severity v =
      rank_reaches (index_of 0 severity_order (to_string R v)) (index_of 0 severity_order severity)

  unfoldable pub compute_age_minutes : Num → String → Num
  compute_age_minutes clock event_date = quot (sub clock (date_ms event_date)) (of_ℕ 60000)

  unfoldable pub title_matches : String → Json Num → Throws Bool
  unfolding to_string
  title_matches title v = elim (regex_test (to_string R v) title) [
    | none ↦ returns false
    | some hit ↦ returns hit
  ]

  -- `xs.map(String).includes(s)`
  unfoldable pub any_string : String → Json Num → Throws Bool
  unfolding to_string
  any_string s v = do xs ← as_array v; returns (includes (map (to_string R) xs) s)

  unfoldable pub raw_field : Json Num → Json Num → Throws Bool
  unfolding to_string to_number get_nested_value any_string
  raw_field payload rf = do
    path ← member rf "path"
    val ← get_nested_value R payload path
    present "equals" (λ e. returns (option_string R val =s to_string R e)) rf
        and_then present "gte" (λ g. returns (not (less (option_number R val) (to_number R g)))) rf
        and_then present "equalsAny" (any_string (option_string R val)) rf

  module _ (ctx : EvaluationContext Num) where
    abbrev pub signal : SignalContext Num
    signal = ctx.signal

    unfoldable pub signal_checks : Json Num → Throws Bool
    unfolding match_string_or_array match_string_or_array_against_list severity_at_least
        compute_age_minutes title_matches raw_field
    signal_checks sp =
        present "kind" (λ v. returns (match_string_or_array R signal.kind v)) sp
        and_then present "sourceId" (λ v. returns (match_string_or_array R signal.source_id v)) sp
        and_then present "sourceIdIn" (λ v. as_array_includes v signal.source_id) sp
        and_then present "severityMin" (λ v. returns (severity_at_least signal.severity v)) sp
        and_then present "severity" (λ v. returns (match_string_or_array R signal.severity v)) sp
        and_then present "confidenceMin"
            (λ v. returns (not (less signal.confidence (to_number R v)))) sp
        and_then present "geographyIntersects"
            (λ v. some_included v (flat_regions signal.geographies)) sp
        and_then present "affectedEntityKind"
            (λ v.
              returns (
                match_string_or_array_against_list R (map (λ e. e.kind) signal.affected_entities)
                  v))
            sp
        and_then present "affectedEntityInGraph"
            (λ v. returns (same (truthy R v) (not (is_nil signal.affected_entities)))) sp
        and_then present "titleMatches" (title_matches signal.title) sp
        and_then present "rawField" (raw_field signal.raw_payload) sp
        and_then present "ageMaxMinutes"
            (λ v. returns (
              not (
                less (to_number R v)
                  (or_else signal.age_minutes (compute_age_minutes ctx.clock signal.event_date)))))
            sp
