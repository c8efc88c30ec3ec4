-- ===== src/Rules/Tests.antt =====
-- src/services/rule-evaluator.service.ts, src/services/rule-parser.service.ts and
-- src/services/rule-cache.service.ts: runs on concrete values.
use musanad_contracts_backen.Base.{
  codes, take, ℕ, ◌-◌, ◌/◌, ◌≡◌, refl, ◌↔◌, ◌≢◌, ◌⊎◌, String, true, false, not, none, some, List,
  [], ◌∷◌, arith, ltb, leb, ◌==◌, ◌=s◌, if◌then◌else◌,
}
use musanad_contracts_backen.Js.{
  Runtime, Json, Items, Fields, bool, num, str, arr, obj, nil, cons, end, field, depth, elems,
  find_field, str_includes,
}
use musanad_contracts_backen.Rules.Context.{Geography, Entity, EvaluationContext, text}
use musanad_contracts_backen.Rules.Predicates.Signal.{signal_checks}
use musanad_contracts_backen.Rules.Predicates.Contract.{contract_checks}
use musanad_contracts_backen.Rules.Predicates.Join.{join_checks}
use musanad_contracts_backen.Rules.Evaluate.{
  threw, starved, of_throws, wrap, eval_block, run_block, run_signal, run_contract,
  evaluate_match_block,
}
use musanad_contracts_backen.Rules.Evaluate.Fuel.{eval_block-ends}
use musanad_contracts_backen.Rules.Evaluate.Laws.{
  wrap_all, match-not, FirstTrue, match-any_of, SectionHolds, match-sections, match-nested_any_of,
}
use musanad_contracts_backen.Rules.Parse.{Loaded, loaded, failed, valid, parse_rule_yaml}
use musanad_contracts_backen.Rules.Parse.Laws.{IsMatchBlock, IsProduceBlock, parse-valid_iff}
use musanad_contracts_backen.Rules.Template.{TemplateValues, resolve_template}
use musanad_contracts_backen.Rules.Produce.{part_field, evaluate_produce_block}
use musanad_contracts_backen.Rules.Produce.Laws.{
  IsConfidence, IsPriority, evaluate_produce_block-accepted,
}
use musanad_contracts_backen.Rules.Cache.{
  System, boot, Step, Reach, here, next, invalidated, read, arrived, call_load, load_ok, answered,
  Listener, listening, listen_refused, start_rule_cache_listener, stop_rule_cache_listener,
}
use musanad_contracts_backen.Rules.Cache.Laws.{
  IsGuarded, IsAnswer, Reach-IsGuarded, Reach-rules, after_change, settled_on, stale_at_rest,
  failed_listen_blocks,
}

-- Whole numbers in place of doubles.
abbrev whole : Runtime
whole = record {
  Num = ℕ;
  less = ltb;
  at_most = leb;
  sub = λ a b. a - b;
  quot = λ a b. a / b;
  abs = λ a. a;
  is_finite = λ a. true;
  falsy = λ a. a == 0;
  of_ℕ = λ a. a;
  nan = 999;
  infinity = 100000;
  show = λ a. if a == 0 then "0" else if a == 1 then "1" else if a == 7 then "7" else "9";
  read = λ s. if s =s "7" then 7 else 999;
  date_ms = λ s. 0;
  regex_test = λ p s. some (str_includes s p);
}

abbrev hormuz : Geography ℕ
hormuz = record { named_region = some "Hormuz"; iso_code = some "AE" }

abbrev carrier : Entity ℕ
carrier = record { id = text "7"; kind = "vendor"; name = "Carrier" }

abbrev closure : EvaluationContext ℕ
closure = record {
  signal = record {
    id = 1;
    title = "Port closed";
    kind = "shipping";
    severity = "high";
    confidence = 80;
    source_id = "lloyds";
    event_date = "2026-01-01";
    geographies = hormuz ∷ [];
    affected_entities = carrier ∷ [];
    raw_payload = obj (field "index" (num 3) end);
    url = none;
    age_minutes = some 5;
  };
  contract = record {
    id = 9;
    title = "Charter";
    contract_type = "charter";
    status = "active";
    governing_law = none;
    currency = some "AED";
    value_min = none;
    business_unit = none;
    geographies = some ("AE" ∷ []);
    routes = none;
    renewal_within_days = none;
    counterparty = record {
      id = 1;
      name = "Line";
      chain = record { id = 7; name = "Carrier"; kind = "vendor"; depth = 1 } ∷ [];
    };
    clauses = [];
  };
  rule = record { id = "r"; name = "r"; version_hash = "h" };
  now = "2026-01-02";
  clock = 60000;
}

abbrev kind_is : String → Json ℕ
kind_is k = wrap "signal" (wrap "kind" (str k))

-- `not` around the block, and a list that no key expects.
abbrev broken : Json ℕ
broken = wrap "signal" (wrap "geographyIntersects" (num 3))

evaluate_tests :
    (evaluate_match_block whole closure (kind_is "shipping") ≡ true)
    × (evaluate_match_block whole closure (kind_is "weather") ≡ false)
    × (evaluate_match_block whole closure (wrap "not" (kind_is "weather")) ≡ true)
    × (evaluate_match_block whole closure broken ≡ false)
    × (evaluate_match_block whole closure (wrap "not" broken) ≡ false)
    × (evaluate_match_block whole closure (obj end) ≡ true)
    × (evaluate_match_block whole closure (
          wrap "contract"
            (obj (field "status" (str "active") (field "hasClause" (str "cure") end))))
        ≡ false)
unfolding evaluate_match_block run_block eval_block signal_checks contract_checks depth
evaluate_tests = (refl, refl, refl, refl, refl, refl, refl)

eval_block-ends_example :
    (eval_block whole closure 9 (kind_is "shipping") ≡ run_block whole closure (kind_is "shipping"))
    × (run_block whole closure (kind_is "shipping") ≢ starved)
unfolding depth
eval_block-ends_example = eval_block-ends whole closure 9 (kind_is "shipping") (omega arith)

match-not_example :
    ((run_block whole closure (kind_is "weather") ≡ threw)
      × (evaluate_match_block whole closure (kind_is "weather") ≡ false)
      × (evaluate_match_block whole closure (wrap "not" (kind_is "weather")) ≡ false))
    ⊎ ((run_block whole closure (kind_is "weather") ≢ threw)
        × (evaluate_match_block whole closure (wrap "not" (kind_is "weather"))
            ≡ not (evaluate_match_block whole closure (kind_is "weather"))))
match-not_example = match-not whole closure (kind_is "weather")

abbrev two_blocks : Items ℕ
two_blocks = cons (kind_is "weather") (cons (kind_is "shipping") nil)

match-any_of_example :
    (evaluate_match_block whole closure (wrap "anyOf" (arr two_blocks)) ≡ true)
    ↔ FirstTrue whole closure (elems two_blocks)
match-any_of_example = match-any_of whole closure two_blocks

abbrev shadowed : Fields ℕ
shadowed = field "signal" (wrap "kind" (str "weather")) (field "not" (kind_is "weather") end)

abbrev sections : Fields ℕ
sections =
    field "signal" (wrap "kind" (str "shipping"))
      (field "joins" (wrap "geographyOverlap" (bool true)) end)

match-sections_example : (evaluate_match_block whole closure (obj sections) ≡ true) ↔ (
    SectionHolds whole closure (find_field "signal" sections) (run_signal whole closure)
    × SectionHolds whole closure (find_field "contract" sections) (run_contract whole closure)
    × SectionHolds whole closure
        (find_field "joins" sections)
        (λ p. of_throws (join_checks whole closure p)))
match-sections_example = match-sections whole closure sections refl refl

abbrev two_kinds : Items ℕ
two_kinds = cons (wrap "kind" (str "weather")) (cons (wrap "kind" (str "shipping")) nil)

match-nested_any_of_example :
    (evaluate_match_block whole closure (wrap "signal" (wrap "anyOf" (arr two_kinds)))
      ≡ evaluate_match_block whole closure (wrap "anyOf" (arr (wrap_all "signal" two_kinds))))
    × (evaluate_match_block whole closure (wrap "contract" (wrap "anyOf" (arr two_kinds)))
        ≡ evaluate_match_block whole closure (wrap "anyOf" (arr (wrap_all "contract" two_kinds))))
match-nested_any_of_example = match-nested_any_of whole closure two_kinds

-- A reader of two texts.
abbrev match_block : Fields ℕ
match_block = field "signal" (wrap "kind" (str "shipping")) end

abbrev produce_block : Fields ℕ
produce_block =
    field "correlation"
      (obj (field "confidenceBase" (num 1) (field "matchReasonTemplate" (str "closed") end))) end

abbrev load : String → Loaded ℕ
load t =
    if t =s "m"
    then loaded (obj match_block)
    else if t =s "p"
    then loaded (obj produce_block)
    else failed "bad indentation" (some 3)

parse-valid_iff_example : (parse_rule_yaml whole load "m" "p" ≡ valid match_block produce_block) ↔ (
    (load "m" ≡ loaded (obj match_block))
    × (load "p" ≡ loaded (obj produce_block))
    × IsMatchBlock match_block
    × IsProduceBlock whole produce_block)
parse-valid_iff_example = parse-valid_iff whole load "m" "p" match_block produce_block

parse_tests : parse_rule_yaml whole load "m" "p" ≡ valid match_block produce_block
unfolding parse_rule_yaml
parse_tests = refl

-- A cache that has loaded once.
abbrev two_rules : List ℕ
two_rules = 1 ∷ 2 ∷ []

-- The first page, of two rules here.
abbrev page : List ℕ → List ℕ
page rules = take 2 rules

abbrev loading : System ℕ ℕ
loading = call_load (boot two_rules)

abbrev answered_two : System ℕ ℕ
answered_two = record loading { flights = answered two_rules ∷ [] }

abbrev warm : System ℕ ℕ
warm = record answered_two { cache = load_ok 5 (some two_rules) answered_two.cache; flights = [] }

answered_two-Reach : Reach page (boot two_rules) answered_two
unfolding call_load
answered_two-Reach = next (next here (invalidated refl)) (read [] [] refl refl)

warm-Reach : Reach page (boot two_rules) warm
unfolding call_load
warm-Reach = next answered_two-Reach (arrived [] [] two_rules 5 refl refl)

Reach-IsGuarded_example : IsGuarded page warm
Reach-IsGuarded_example = Reach-IsGuarded page two_rules warm-Reach

Reach-rules_example : (warm.cache.rules ≡ []) ⊎ IsAnswer page warm-Reach warm.cache.rules
Reach-rules_example = Reach-rules page two_rules warm-Reach

stale_at_rest_example :
    let v = after_change page (3 ∷ []) answered_two in
    Step page answered_two v
    × (call_load v ≡ v)
    × Step page v (record v { pending = 0 })
    × Step page (record v { pending = 0 }) (settled_on page two_rules (3 ∷ []) 5)
unfolding call_load
stale_at_rest_example =
    stale_at_rest page two_rules answered_two-Reach two_rules (3 ∷ []) 5 refl refl

abbrev closed : Listener
closed = record { client = false; subscribed = false }

failed_listen_blocks_example :
    let l' = (start_rule_cache_listener listen_refused closed).0 in
    (start_rule_cache_listener listening l' ≡ (l', false))
    × (l'.subscribed ≡ false)
    × ((start_rule_cache_listener listening (stop_rule_cache_listener l')).0.subscribed ≡ true)
failed_listen_blocks_example = failed_listen_blocks closed listening refl

abbrev template_values : TemplateValues
template_values = record {
  signal_field = λ key. codes "Port {{now}}";
  contract_field = λ key. [];
  rule_field = λ key. [];
  counterparty_name = codes "A $& B";
  now = codes "noon";
  entity_name = [];
  geography = [];
}

-- What a signal's field brings in is resolved, too, and a name with `$&` brings in the pattern.
template_tests :
    (resolve_template template_values (codes "{{signal.title}}!") ≡ codes "Port noon!")
    × (resolve_template template_values (codes "x {{contract.counterparty.name}}")
        ≡ codes "x A {{contract.counterparty.name}} B")
unfolding resolve_template
template_tests = (refl, refl)

evaluate_produce_block-accepted_example :
    let out = evaluate_produce_block whole 1 template_values produce_block in
    IsConfidence whole 1 template_values (find_field "correlation" produce_block) out.confidence
    × IsPriority whole 1 template_values
        (part_field (find_field "alert" produce_block) "priority")
        out.priority
evaluate_produce_block-accepted_example =
    evaluate_produce_block-accepted whole 1 template_values produce_block
      ((parse-valid_iff whole load "m" "p" match_block produce_block).0 parse_tests).3
