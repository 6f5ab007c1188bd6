-- ===== src/Tree/Plan.antt =====
-- src-tauri/src/tree/service.rs: the plan that a proposal brings, and what it would change.
pub mod Data
pub mod Dag
pub mod Diff
