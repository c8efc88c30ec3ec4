-- ===== src/Rules.antt =====
-- The correlation rule engine: src/services/rule-evaluator.service.ts and what it stands among.
pub mod Context
pub mod Matching
pub mod Predicates
pub mod Evaluate
pub mod Template
pub mod Produce
pub mod Parse
pub mod Cache
mod Tests
