-- ===== src/Rules/Context.antt =====
-- src/services/rule-evaluator.service.ts: the contexts that a rule is evaluated in.
use musanad_contracts_backen.Base.{String, Option, List}
use musanad_contracts_backen.Js.{Json}

module _ (N : Type 0) where
  pub record Geography : Type 0 where
    pub named_region : Option String
    pub iso_code : Option String

  -- `string | number`
  pub data EntityId : Type 0 where
    text : String → EntityId
    number : N → EntityId

  pub record Entity : Type 0 where
    pub id : EntityId
    pub kind : String
    pub name : String

  pub record SignalContext : Type 0 where
    pub id : N
    pub title : String
    pub kind : String
    pub severity : String
    pub confidence : N
    pub source_id : String
    pub event_date : String
    pub geographies : List Geography
    pub affected_entities : List Entity
    pub raw_payload : Json N
    pub url : Option String
    pub age_minutes : Option N

  pub record Money : Type 0 where
    pub amount : N
    pub currency : String

  pub record ChainLink : Type 0 where
    pub id : N
    pub name : String
    pub kind : String
    pub depth : N

  pub record Counterparty : Type 0 where
    pub id : N
    pub name : String
    pub chain : List ChainLink

  pub record Clause : Type 0 where
    pub clause_type_v2 : String
    pub parameters : Json N
    pub confidence : Option N

  pub record ContractContext : Type 0 where
    pub id : N
    pub title : String
    pub contract_type : String
    pub status : String
    pub governing_law : Option String
    pub currency : Option String
    pub value_min : Option Money
    pub business_unit : Option String
    pub geographies : Option (List String)
    pub routes : Option (List String)
    pub renewal_within_days : Option N
    pub counterparty : Counterparty
    pub clauses : List Clause

  pub record RuleRef : Type 0 where
    pub id : String
    pub name : String
    pub version_hash : String

  -- `now` is the field of the context, `clock` what `Date.now()` returns while it is evaluated.
  pub record EvaluationContext : Type 0 where
    pub signal : SignalContext
    pub contract : ContractContext
    pub rule : RuleRef
    pub now : String
    pub clock : N
