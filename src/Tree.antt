-- ===== src/Tree.antt =====
-- Test plans: what src-tauri/src/tree/state.rs decides of their shape and of the status of a task.
pub mod Forest
pub mod State
pub mod Next
pub mod Plan
