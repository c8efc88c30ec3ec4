-- ===== src/Audit.antt =====
-- The audit chain, src/utils/audit-canonical.util.ts.
pub mod Canonical
mod Tests
