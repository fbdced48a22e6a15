-- ===== src/Dispatch.antt =====
-- What follows the run of a job: internal/dispatch/retry_policy.go and internal/dispatch/dispatcher.go.
pub mod Output
pub mod Retry
