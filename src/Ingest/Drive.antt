-- ===== src/Ingest/Drive.antt =====
-- src/services/migration-orchestrator.service.ts: the import of a folder of documents from a drive.
pub mod Session
pub mod Fields
pub mod Parties
pub mod Files
pub mod Batch
mod Tests
