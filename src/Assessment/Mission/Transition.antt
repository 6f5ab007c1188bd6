-- ===== src/Assessment/Mission/Transition.antt =====
-- src-tauri/src/assessment/mission.rs: which changes of status a mission may make.
use rust_forge.Base.{Bool, true, false, ◌||◌, Result, ok, guard, if◌then◌else◌}
use rust_forge.Assessment.Mission.Status.{
  MissionStatus, draft, awaiting_context_approval, queued, discovering, planning,
  awaiting_action_approval, executing, verifying, awaiting_manual_handoff, completed, stopped,
  cancelled, failed, interrupted, status_eq,
}

-- The ends that every mission in a run can meet: stopped, cancelled, failed or interrupted.
abbrev pub is_broken_off : MissionStatus → Bool
is_broken_off stopped = true
is_broken_off cancelled = true
is_broken_off failed = true
is_broken_off interrupted = true
is_broken_off _ = false

-- The `match` on the current status.
abbrev pub is_allowed : MissionStatus → MissionStatus → Bool
is_allowed draft next = status_eq next awaiting_context_approval || status_eq next stopped
is_allowed awaiting_context_approval next =
    status_eq next awaiting_action_approval
    || status_eq next queued
    || status_eq next stopped
    || status_eq next cancelled
is_allowed awaiting_action_approval next =
    status_eq next queued
    || status_eq next awaiting_context_approval
    || status_eq next stopped
    || status_eq next cancelled
is_allowed queued next = status_eq next discovering || is_broken_off next
is_allowed discovering next = status_eq next planning || is_broken_off next
is_allowed planning next =
    status_eq next executing
    || status_eq next completed
    || status_eq next awaiting_manual_handoff
    || is_broken_off next
is_allowed executing next =
    status_eq next planning
    || status_eq next verifying
    || status_eq next completed
    || status_eq next awaiting_manual_handoff
    || is_broken_off next
is_allowed verifying next =
    status_eq next planning
    || status_eq next completed
    || status_eq next awaiting_manual_handoff
    || is_broken_off next
is_allowed awaiting_manual_handoff next =
    status_eq next completed || status_eq next stopped || status_eq next cancelled
is_allowed _ next = false

pub data MissionError : Type 0 where
  -- [REVISION_CONFLICT]
  revision_conflict : MissionError
  -- [CONTEXT_DRIFT], [REGISTRY_DRIFT], [PERMISSION_DRIFT] and [CONTRACT_DRIFT]
  context_drift : MissionError
  registry_drift : MissionError
  permission_drift : MissionError
  contract_drift : MissionError
  forbidden_transition : MissionStatus → MissionStatus → MissionError
  wrong_status : MissionStatus → MissionError
  -- an error of `preview_context` or of `service::preview_contract`
  preview_refused : MissionError
  is_read_only : MissionError
  missing_action : MissionError
  action_already_decided : MissionError
  missing_active_run : MissionError
  approval_still_pending : MissionError
  unknown_tool : MissionError
  never_automatic : MissionError
  revision_required : MissionError
  no_permission_yet : MissionError
  not_ready_to_hand_off : MissionError
  missing_handoff : MissionError
  result_already_linked : MissionError
  -- an error of the replay or the evidence service
  replay_refused : MissionError

unfoldable pub validate_mission_transition :
    MissionStatus → MissionStatus → Result MissionError (Unit {0})
validate_mission_transition current next =
    if status_eq current next
    then ok tt
    else guard (is_allowed current next) (forbidden_transition current next)
