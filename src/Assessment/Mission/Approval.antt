-- ===== src/Assessment/Mission/Approval.antt =====
-- src-tauri/src/assessment/mission.rs: the two approvals that a mission needs before it starts, of
-- its context and of its actions, and the permissions of the tools.
use rust_forge.Base.{
  ℕ, ◌+◌, Bool, true, false, not, ◌&&◌, ◌||◌, List, [], ◌∷◌, any, length, Option, none, some,
  Result, ok, err, ◌>>=◌, ◌>>◌, guard, ok_or, if◌then◌else◌, ◌==◌,
}
use rust_forge.Text.{Text, codes, text_eq}
use rust_forge.Text.Utf8.{as_bytes}
use rust_forge.Assessment.Catalog.{tool}
use rust_forge.Assessment.Catalog.Spec.{Permission, execute, is_manual}
use rust_forge.Assessment.Mission.Status.{
  MissionStatus, status_eq, is_terminal, is_network_active, awaiting_action_approval, queued,
}
use rust_forge.Assessment.Mission.Data.{
  Store, Action, ActionStatus, ToolPermission, approved, rejected, user, bulk_user, is_pending,
}
use rust_forge.Assessment.Mission.Transition.{
  MissionError, revision_conflict, context_drift, contract_drift, wrong_status, is_read_only,
  missing_action, preview_refused, action_already_decided, approval_still_pending, unknown_tool,
  never_automatic, revision_required, no_permission_yet,
}
use rust_forge.Assessment.Mission.Tools.{permitted_tools, prepare_actions, update_actions}
use rust_forge.Assessment.Mission.Control.{
  Env, ensure_revision, permission_hash_of, assert_mission_integrity, append_message,
  status_message, remark, MissionTransitionInput, transition_mission_on, is_undecided,
}

-- The status in which the confirmed context leaves the mission.
abbrev pub next_after_context : List Action → MissionStatus
next_after_context actions = if any is_undecided actions then awaiting_action_approval else queued

pub record ConfirmMissionContextInput : Type 0 where
  pub expected_revision : ℕ
  pub context_hash : Text

-- The store that `confirm_context` writes.
unfoldable pub confirmed : Env → (context_hash contract_hash : Text) → Store → Store
confirmed env context_hash contract_hash s =
    let hash = permission_hash_of env s in
    let tools = permitted_tools s.mission.autonomy_mode s.permissions in
    let actions = prepare_actions env.now env.next_id s.mission tools hash s.actions in
    let next = next_after_context actions in
    let revision = s.mission.revision + 1 in
    let noted = append_message (status_message (codes "system") s.mission.status next revision) s in
    record noted {
      actions = actions;
      mission = record s.mission {
        status = next;
        revision = revision;
        context_hash = some context_hash;
        context_approved_hash = some context_hash;
        permission_hash = hash;
        tool_registry_hash = env.registry_hash;
        contract_hash = contract_hash;
      };
    }

unfoldable pub confirm_context :
    Env → ConfirmMissionContextInput → Store → Result MissionError Store
confirm_context env input s = do
  ensure_revision s.mission.revision input.expected_revision
  guard
      (not (s.mission.legacy || is_terminal s.mission.status || is_network_active s.mission.status))
      (wrong_status s.mission.status)
  current ← ok_or env.context_hash preview_refused
  guard (length (as_bytes input.context_hash) == 64 && text_eq input.context_hash current)
      context_drift
  contract ← ok_or env.contract_hash preview_refused
  ok (confirmed env current contract s)

pub record DecideAssessmentActionInput : Type 0 where
  pub action_id : ℕ
  pub expected_mission_revision : ℕ
  pub expected_action_revision : ℕ
  pub approve : Bool
  pub apply_to_same_tool : Bool

unfoldable pub find_action : ℕ → List Action → Option Action
find_action id [] = none
find_action id (a ∷ actions) = if a.id == id then some a else find_action id actions

-- The ids of the undecided actions of one tool.
unfoldable pub ids_of_tool : Text → List Action → List ℕ
ids_of_tool tool_id [] = []
ids_of_tool tool_id (a ∷ actions) =
    let rest = ids_of_tool tool_id actions in
    if text_eq a.tool_id tool_id && is_undecided a then a.id ∷ rest else rest

-- `WHERE id=?1 AND approval_status='pending'`
abbrev pub is_pending_row : ℕ → Action → Bool
is_pending_row id a = a.id == id && is_pending a.approval_status

-- What an approval or a refusal writes to an action.
unfoldable pub decided : Text → DecideAssessmentActionInput → Action → Action
decided now input a = record a {
  approval_status = if input.approve then approved else rejected;
  approval_source = if input.apply_to_same_tool then bulk_user else user;
  status = if input.approve then ActionStatus.queued else ActionStatus.rejected;
  revision = a.revision + 1;
  approved_at = some now;
  completed_at = if input.approve then a.completed_at else some now;
}

-- The loop over the ids.
unfoldable pub decide_ids :
    Text → DecideAssessmentActionInput → List ℕ → List Action → Result MissionError (List Action)
decide_ids now input [] actions = ok actions
decide_ids now input (id ∷ ids) actions = do
  guard (any (is_pending_row id) actions) action_already_decided
  decide_ids now input ids (update_actions (is_pending_row id) (decided now input) actions)

abbrev pub queue_input : ℕ → MissionTransitionInput
queue_input revision = record {
  current = awaiting_action_approval;
  next = queued;
  current_revision = revision;
  stop_reason = none;
}

-- The end of `decide_action`: the mission leaves the approval when nothing is undecided.
unfoldable pub queue_when_decided : Env → ℕ → Store → Result MissionError Store
queue_when_decided env revision s =
    if not (any is_undecided s.actions)
    then transition_mission_on env (queue_input revision) s
    else ok s

-- The store with the decided actions, and the message and the revision of the decision.
unfoldable pub decision_noted : List Action → Store → Store
decision_noted actions s =
    let revision = s.mission.revision + 1 in
    let noted = append_message (remark (codes "action") (codes "approval") revision) s in
    record noted { actions = actions; mission = record s.mission { revision = revision } }

unfoldable pub decide_action : Env → DecideAssessmentActionInput → Store → Result MissionError Store
decide_action env input s = do
  ensure_revision s.mission.revision input.expected_mission_revision
  guard (status_eq s.mission.status awaiting_action_approval) (wrong_status s.mission.status)
  assert_mission_integrity env s
  action ← ok_or (find_action input.action_id s.actions) missing_action
  guard (action.revision == input.expected_action_revision && is_pending action.approval_status)
      revision_conflict
  let ids =
      if input.apply_to_same_tool
      then ids_of_tool action.tool_id s.actions
      else input.action_id ∷ []
  actions ← decide_ids env.now input ids s.actions
  queue_when_decided env (s.mission.revision + 1) (decision_noted actions s)

-- What `prepare_start` checks before a run is created; it changes nothing.
unfoldable pub prepare_start : Env → (expected_revision : ℕ) → Store → Result MissionError Text
prepare_start env expected_revision s = do
  ensure_revision s.mission.revision expected_revision
  guard (not s.mission.legacy) is_read_only
  guard (status_eq s.mission.status queued) (wrong_status s.mission.status)
  assert_mission_integrity env s
  guard (not (any (λ (a : Action). is_pending a.approval_status) s.actions)) approval_still_pending
  contract ← ok_or env.contract_hash preview_refused
  guard (text_eq contract s.mission.contract_hash) contract_drift
  ok contract

unfoldable pub find_permission : Text → List ToolPermission → Option ToolPermission
find_permission id [] = none
find_permission id (p ∷ ps) = if text_eq p.tool_id id then some p else find_permission id ps

-- The `match` on the revision that is stored and the one that is expected.
unfoldable pub ensure_permission_revision :
    Option ToolPermission → Option ℕ → Result MissionError (Unit {0})
ensure_permission_revision (some p) (some expected) =
    guard (p.revision == expected) revision_conflict
ensure_permission_revision (some p) none = err revision_required
ensure_permission_revision none (some expected) = err no_permission_yet
ensure_permission_revision none none = ok tt

-- `INSERT … ON CONFLICT(project_id, tool_id) DO UPDATE`
unfoldable pub upsert_permission : Text → Permission → List ToolPermission → List ToolPermission
upsert_permission id decision [] = record { tool_id = id; decision = decision; revision = 1 } ∷ []
upsert_permission id decision (p ∷ ps) =
    let rest = upsert_permission id decision ps in
    if text_eq p.tool_id id
    then record p { decision = decision; revision = p.revision + 1 } ∷ ps
    else p ∷ rest

abbrev pub is_execute : Permission → Bool
is_execute execute = true
is_execute _ = false

-- `tool_id` is trimmed; the decision is one of the three texts that are accepted.
unfoldable pub set_tool_permission :
    (tool_id : Text) → Permission → (expected : Option ℕ) → Store → Result MissionError Store
set_tool_permission tool_id decision expected s = do
  spec ← ok_or (tool tool_id) unknown_tool
  guard (not (is_manual spec.execution_kind && is_execute decision)) never_automatic
  ensure_permission_revision (find_permission spec.id s.permissions) expected
  ok (record s { permissions = upsert_permission spec.id decision s.permissions })
