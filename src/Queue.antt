-- ===== src/Queue.antt =====
-- The durable job queue: internal/queue.
pub mod Types
pub mod Stamp
pub mod Db
pub mod Enqueue
pub mod Dequeue
pub mod Finish
pub mod Prune
pub mod Rows
pub mod Outcomes
pub mod Safety
pub mod Selection
pub mod Dedupe
pub mod Endings
pub mod Cancellation
pub mod Retention
pub mod Breaker
