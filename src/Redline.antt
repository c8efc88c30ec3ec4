-- ===== src/Redline.antt =====
-- src/services/contract-redline-import.service.ts: a counterparty's redline against our contract.
pub mod Clauses
pub mod Diff
pub mod Align
pub mod Import
mod Tests
