-- ===== src/Assessment/Manager.antt =====
-- src-tauri/src/assessment/manager.rs: the slot for the one assessment that runs in the process.
-- The mutex serializes the methods, so each is a function of the slot; a poisoned lock is left out.
-- The receivers of the cancel channel are the process's: `is_listening` says whether one is left.
pub mod Admission
use rust_forge.Base.{
  ℕ, Bool, true, false, ◌&&◌, Option, none, some, Result, ok, err, ◌==◌, if◌then◌else◌, is_some_and,
}

pub record ActiveAssessment : Type 0 where
  pub project_id : ℕ
  pub run_id : ℕ
  -- the value of the watch channel
  pub cancel : Bool

pub data ManagerError : Type 0 where
  assessment_busy : ℕ → ManagerError
  assessment_not_active : ManagerError

pub record AssessmentManager : Type 0 where
  pub active : Option ActiveAssessment

abbrev pub empty : AssessmentManager
empty = record { active = none }

abbrev pub Reply : Type 0
Reply = AssessmentManager × Result ManagerError (Unit {0})

unfoldable pub claim : ℕ → ℕ → AssessmentManager → Reply
claim project_id run_id m = elim m.active [
  | some current ↦ (m, err (assessment_busy current.run_id))
  | none ↦ (
    record { active = some (record { project_id = project_id; run_id = run_id; cancel = false }) },
    ok tt,
  )
]

unfoldable pub cancel : (is_listening : Bool) → ℕ → ℕ → AssessmentManager → Reply
cancel is_listening project_id run_id m = elim m.active [
  | none ↦ (m, err assessment_not_active)
  | some current ↦
      if (current.project_id == project_id && current.run_id == run_id) && is_listening
      then (record { active = some (record current { cancel = true }) }, ok tt)
      else (m, err assessment_not_active)
]

-- Also the `Drop` of `AssessmentRunGuard`.
unfoldable pub release : ℕ → AssessmentManager → AssessmentManager
release run_id m =
    if is_some_and (λ (current : ActiveAssessment). current.run_id == run_id) m.active
    then record { active = none }
    else m

unfoldable pub active_run_for_project : ℕ → AssessmentManager → Option ℕ
active_run_for_project project_id m = elim m.active [
  | none ↦ none
  | some current ↦ if current.project_id == project_id then some current.run_id else none
]
