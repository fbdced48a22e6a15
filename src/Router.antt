-- ===== src/Router.antt =====
-- Routing: internal/router.
pub mod Conditions
pub mod Dsl
pub mod Index
pub mod Engine
