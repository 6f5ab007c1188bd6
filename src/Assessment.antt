-- ===== src/Assessment.antt =====
-- src-tauri/src/assessment: the goal-driven assessment.
pub mod Policy
pub mod Budget
pub mod Manager
pub mod Catalog
pub mod Planner
pub mod Verifier
pub mod Outcome
pub mod Mission
pub mod Executor
