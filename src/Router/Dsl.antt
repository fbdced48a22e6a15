-- ===== src/Router/Dsl.antt =====
-- The pipeline language: internal/router/dsl.
pub mod Types
pub mod Order
pub mod Checks
pub mod Build
pub mod Dag
pub mod Compile
pub mod Routes
pub mod Calls
