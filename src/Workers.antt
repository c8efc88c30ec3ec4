-- ===== src/Workers.antt =====
-- The workers that a clock or a notification drives: report scheduling and report runs, eviction of expired
-- insights, retries of notifications, correlations, expirations, risk cases.
pub mod Scheduler
pub mod Eviction
pub mod Retry
pub mod Correlation
pub mod Expiration
pub mod ReportRun
pub mod Cases
pub mod Scores
mod Tests
