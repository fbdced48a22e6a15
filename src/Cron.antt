-- ===== src/Cron.antt =====
-- Cron expressions: internal/scheduleexpr/cron.go.
pub mod Types
pub mod Parse
pub mod Next
