-- ===== src/Runner.antt =====
-- The campaign runner (test/campaigns/runner).
pub mod Campaign
pub mod Cron
pub mod Router
pub mod Dispatcher
pub mod Scheduler
pub mod Collector
pub mod Feedback
mod Tests
