-- ===== src/Migrate.antt =====
-- The migration runner, src/database/migrate.ts.
pub mod Split
pub mod Markers
pub mod Runner
mod Tests
