-- ===== src/Router/Conditions.antt =====
-- Conditions on events: internal/router/conditions.
pub mod Types
pub mod Paths
pub mod Eval
pub mod Validate
