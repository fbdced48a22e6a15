-- ===== src/Examples.antt =====
-- Runs of the theorems on a small database: a job that waits, one that runs, and one that ended.
pub mod Data
mod Jobs
mod Dedupe
mod Schedules
mod Crons
mod Retries
mod Breakers
pub mod Conditions
pub mod Pipelines
mod Dispatches
