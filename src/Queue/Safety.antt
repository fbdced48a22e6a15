-- ===== src/Queue/Safety.antt =====
-- What stays true of the queue's database under every operation of internal/queue/queue.go.
pub mod Rows
pub mod Changes
pub mod Lineage
pub mod Attempts
pub mod Reach
