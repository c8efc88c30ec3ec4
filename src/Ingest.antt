-- ===== src/Ingest.antt =====
-- Documents: the jobs of the ingestion worker, and the import of documents from a drive.
pub mod Jobs
pub mod Drive
pub mod Engine
pub mod Feeds
pub mod Health
pub mod Queues
mod Tests
