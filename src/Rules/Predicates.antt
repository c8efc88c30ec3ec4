-- ===== src/Rules/Predicates.antt =====
-- src/services/rule-evaluator.service.ts: the predicates of a rule, but for the nested `anyOf` and
-- `not`, which Rules/Evaluate adds.
pub mod Signal
pub mod Contract
pub mod Join
pub mod Overlap
