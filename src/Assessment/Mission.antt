-- ===== src/Assessment/Mission.antt =====
-- src-tauri/src/assessment/mission.rs: the missions of an assessment, with the enumerations of
-- src-tauri/src/assessment/model.rs. `Mission/Control.antt` says what the store holds.
pub mod Status
pub mod Run
pub mod Transition
pub mod Data
pub mod Tools
pub mod Control
pub mod Approval
pub mod Runs
pub mod Manual
pub mod Handoffs
pub mod Cleared
pub mod Audit
pub mod Kept
pub mod Selected
pub mod Handed
pub mod Steps
pub mod Outcomes
