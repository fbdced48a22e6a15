-- ===== src/Scheduler.antt =====
-- The scheduler: internal/scheduler.
pub mod Breaker
pub mod Gate
pub mod Recovery
pub mod Window
pub mod CronDue
