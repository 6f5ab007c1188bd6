-- ===== src/Assessment/Mission/Data.antt =====
-- src-tauri/src/assessment/mission.rs and model.rs: the rows that the database keeps for one
-- mission. The texts of a row that a CHECK of storage/migrations/v4.sql limits to a few words are
-- enumerations. Left out are the JSON payloads, their hashes and the wording of messages.
use rust_forge.Base.{ℕ, Bool, true, false, List, Option}
use rust_forge.Text.{Text}
use rust_forge.Assessment.Catalog.Spec.{ExecutionKind, RiskLevel, Permission}
use rust_forge.Assessment.Mission.Status.{MissionStatus, AutonomyMode}

pub data ApprovalStatus : Type 0 where
  not_required : ApprovalStatus
  pending : ApprovalStatus
  approved : ApprovalStatus
  rejected : ApprovalStatus

pub data ApprovalSource : Type 0 where
  policy : ApprovalSource
  user : ApprovalSource
  bulk_user : ApprovalSource
  tool_override : ApprovalSource

pub data ActionStatus : Type 0 where
  proposed : ActionStatus
  awaiting_approval : ActionStatus
  queued : ActionStatus
  executing : ActionStatus
  completed : ActionStatus
  manual_ready : ActionStatus
  manual_result_pending : ActionStatus
  skipped : ActionStatus
  rejected : ActionStatus
  failed : ActionStatus
  cancelled : ActionStatus

pub data HandoffStatus : Type 0 where
  draft_created : HandoffStatus
  opened : HandoffStatus
  sent : HandoffStatus
  result_linked : HandoffStatus
  cancelled : HandoffStatus

-- A row of `assessment_manual_handoffs`, less its draft.
pub record Handoff : Type 0 where
  pub id : ℕ
  pub replay_session_id : Option ℕ
  pub replay_run_id : Option ℕ
  pub evidence_id : Option ℕ
  pub status : HandoffStatus

-- A row of `assessment_actions`.
pub record Action : Type 0 where
  pub id : ℕ
  -- the stable key of its workstream
  pub workstream : Text
  pub tool_id : Text
  pub tool_version : Text
  pub execution_kind : ExecutionKind
  pub risk_level : RiskLevel
  pub identity_mode : Text
  pub request_cost : ℕ
  pub permission_snapshot : Permission
  pub permission_hash : Text
  pub approval_status : ApprovalStatus
  pub approval_source : ApprovalSource
  pub status : ActionStatus
  pub policy_reason : Text
  pub revision : ℕ
  pub approved_at : Option Text
  pub started_at : Option Text
  pub completed_at : Option Text
  -- the handoff with its id, of which there is one at most, since `action_id` is unique
  pub handoff : Option Handoff

-- A row of `assessment_messages`.
pub record MessageEntry : Type 0 where
  pub role : Text
  pub kind : Text
  pub old_value : Option Text
  pub new_value : Option Text
  pub revision : ℕ

pub record Mission : Type 0 where
  pub goal : Text
  pub status : MissionStatus
  pub autonomy_mode : AutonomyMode
  pub max_planning_cycles : ℕ
  pub completed_cycles : ℕ
  pub identity_a_profile_id : Option ℕ
  pub identity_b_profile_id : Option ℕ
  pub contract_hash : Text
  pub tool_registry_hash : Text
  pub permission_hash : Text
  pub context_hash : Option Text
  pub context_approved_hash : Option Text
  pub active_run_id : Option ℕ
  pub legacy : Bool
  pub revision : ℕ
  pub pending_steering : Bool
  pub stop_reason : Text
  pub started_at : Option Text
  pub ended_at : Option Text

-- A row of `assessment_tool_permissions` of the mission's project.
pub record ToolPermission : Type 0 where
  pub tool_id : Text
  pub decision : Permission
  pub revision : ℕ

-- A row of `assessment_mission_runs`.
pub record MissionRun : Type 0 where
  pub run_id : ℕ
  pub cycle : ℕ

-- A row of `assessment_mission_resources`.
pub record Resource : Type 0 where
  pub resource_type : Text
  pub source_id : Option ℕ
  pub content_hash : Text

pub record Store : Type 0 where
  pub mission : Mission
  pub actions : List Action
  pub messages : List MessageEntry
  pub permissions : List ToolPermission
  pub runs : List MissionRun
  pub resources : List Resource

abbrev pub is_pending : ApprovalStatus → Bool
is_pending pending = true
is_pending _ = false

abbrev pub is_approved : ApprovalStatus → Bool
is_approved approved = true
is_approved _ = false

-- `approval_status IN ('not_required','approved')`
abbrev pub is_cleared : ApprovalStatus → Bool
is_cleared not_required = true
is_cleared approved = true
is_cleared _ = false

abbrev pub is_queued : ActionStatus → Bool
is_queued queued = true
is_queued _ = false

abbrev pub is_awaiting_approval : ActionStatus → Bool
is_awaiting_approval awaiting_approval = true
is_awaiting_approval _ = false

-- `status IN ('manual_ready','manual_result_pending')`
abbrev pub is_with_person : ActionStatus → Bool
is_with_person manual_ready = true
is_with_person manual_result_pending = true
is_with_person _ = false

-- `status IN ('proposed','awaiting_approval','queued')`
abbrev pub is_open_before_context : ActionStatus → Bool
is_open_before_context proposed = true
is_open_before_context awaiting_approval = true
is_open_before_context queued = true
is_open_before_context _ = false

-- `status IN ('proposed','awaiting_approval','queued','manual_ready')`
abbrev pub is_stoppable : ActionStatus → Bool
is_stoppable manual_ready = true
is_stoppable status = is_open_before_context status
