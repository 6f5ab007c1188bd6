-- ===== src/Assessment/Mission/Control.antt =====
-- src-tauri/src/assessment/mission.rs: what the operations on a mission share, on a store with one
-- mission: revisions, the audit message that comes with each of them, changes of status, and the
-- checks against drift. An operation runs in one transaction, so an error leaves the store as it
-- was; a failing statement of the database is not modelled.
use rust_forge.Base.{
  ℕ, ◌+◌, Bool, true, not, ◌&&◌, ◌||◌, List, [], ◌∷◌, ◌++◌, Option, none, some, Result, ok, ◌>>◌,
  guard, if◌then◌else◌, ◌==◌, is_some_and,
}
use rust_forge.Text.{Text, codes, text_eq}
use rust_forge.Assessment.Mission.Status.{
  MissionStatus, AutonomyMode, mission_text, status_eq, is_network_active, is_terminal, draft,
  awaiting_context_approval,
}
use rust_forge.Assessment.Mission.Data.{
  Mission, MessageEntry, Store, Action, Resource, is_pending, is_awaiting_approval,
}
use rust_forge.Assessment.Mission.Transition.{
  MissionError, revision_conflict, context_drift, registry_drift, permission_drift, wrong_status,
  is_read_only, validate_mission_transition,
}
use rust_forge.Assessment.Mission.Tools.{MissionToolDescriptor, permission_rows}

-- What the operations take from elsewhere: the clock of the database, the hash of the tool
-- registry and of a list of permissions, the row id that comes next, and the hashes that
-- `preview_context` and `service::preview_contract` give, `none` where they refuse.
pub record Env : Type 0 where
  pub now : Text
  pub registry_hash : Text
  pub hash_permissions : AutonomyMode → List MissionToolDescriptor → Text
  pub next_id : ℕ
  pub context_hash : Option Text
  pub contract_hash : Option Text

unfoldable pub ensure_revision : ℕ → ℕ → Result MissionError (Unit {0})
ensure_revision current expected = guard (current == expected) revision_conflict

unfoldable pub ensure_resource_mutable : Mission → Result MissionError (Unit {0})
ensure_resource_mutable mission =
    guard
      (not (
        mission.legacy
        || not
            (status_eq mission.status draft || status_eq mission.status awaiting_context_approval)))
      (wrong_status mission.status)

unfoldable pub permission_hash_of : Env → Store → Text
permission_hash_of env s =
    env.hash_permissions s.mission.autonomy_mode
      (permission_rows s.mission.autonomy_mode s.permissions)

unfoldable pub is_context_approved : Mission → Bool
is_context_approved mission =
    is_some_and (λ h. is_some_and (text_eq h) mission.context_approved_hash) mission.context_hash

unfoldable pub assert_mission_integrity : Env → Store → Result MissionError (Unit {0})
assert_mission_integrity env s = do
  guard (text_eq s.mission.tool_registry_hash env.registry_hash) registry_drift
  guard (text_eq s.mission.permission_hash (permission_hash_of env s)) permission_drift
  guard (is_context_approved s.mission) context_drift

unfoldable pub append_message : MessageEntry → Store → Store
append_message entry s = record s { messages = s.messages ++ entry ∷ [] }

-- A message without values, as all but those about the status are.
abbrev pub remark : Text → Text → ℕ → MessageEntry
remark role kind revision = record {
  role = role;
  kind = kind;
  old_value = none;
  new_value = none;
  revision = revision;
}

abbrev pub status_message : Text → MissionStatus → MissionStatus → ℕ → MessageEntry
status_message role old new revision = record {
  role = role;
  kind = codes "status";
  old_value = some (mission_text old);
  new_value = some (mission_text new);
  revision = revision;
}

-- `started_at` and `ended_at` of the `UPDATE`.
abbrev pub started : Text → MissionStatus → Option Text → Option Text
started now next (some t) = some t
started now next none = if is_network_active next then some now else none

abbrev pub ended : Text → MissionStatus → Option Text → Option Text
ended now next ended_at = if is_terminal next then some now else ended_at

-- `CASE WHEN ?5 IS NULL THEN stop_reason ELSE ?5 END`
abbrev pub reason_or : Option Text → Text → Text
reason_or none stop_reason = stop_reason
reason_or (some reason) stop_reason = reason

pub record MissionTransitionInput : Type 0 where
  pub current : MissionStatus
  pub next : MissionStatus
  pub current_revision : ℕ
  pub stop_reason : Option Text

unfoldable pub moved : Text → MissionTransitionInput → Mission → Mission
moved now input mission = record mission {
  status = input.next;
  revision = input.current_revision + 1;
  stop_reason = reason_or input.stop_reason mission.stop_reason;
  started_at = started now input.next mission.started_at;
  ended_at = ended now input.next mission.ended_at;
}

unfoldable pub transition_mission_on :
    Env → MissionTransitionInput → Store → Result MissionError Store
transition_mission_on env input s = do
  validate_mission_transition input.current input.next
  let entry = status_message (codes "system") input.current input.next (input.current_revision + 1)
  let noted = append_message entry s
  guard (s.mission.revision == input.current_revision && status_eq s.mission.status input.current)
      revision_conflict
  ok (record noted { mission = moved env.now input s.mission })

unfoldable pub bump_context_revision : ℕ → Store → Result MissionError Store
bump_context_revision current_revision s = do
  let noted = append_message (remark (codes "system") (codes "summary") (current_revision + 1)) s
  guard (s.mission.revision == current_revision) revision_conflict
  let mission = record s.mission {
    revision = current_revision + 1;
    context_hash = none;
    context_approved_hash = none;
  }
  ok (record noted { mission = mission })

-- Also `import_openapi`, once it has read the file.
unfoldable pub attach_resource :
    (expected_revision : ℕ) → Resource → Store → Result MissionError Store
attach_resource expected_revision resource s = do
  ensure_revision s.mission.revision expected_revision
  ensure_resource_mutable s.mission
  bump_context_revision expected_revision (record s { resources = s.resources ++ resource ∷ [] })

-- `send_message`, once its text is redacted.
unfoldable pub send_message : (expected_revision : ℕ) → Store → Result MissionError Store
send_message expected_revision s = do
  ensure_revision s.mission.revision expected_revision
  guard (not (s.mission.legacy || is_terminal s.mission.status)) is_read_only
  let next_revision = s.mission.revision + 1
  let noted = append_message (remark (codes "user") (codes "follow_up") next_revision) s
  ok (record noted {
    mission = record s.mission { revision = next_revision; pending_steering = true };
  })

-- `SELECT EXISTS(… approval_status='pending' AND status='awaiting_approval')`
abbrev pub is_undecided : Action → Bool
is_undecided a = is_pending a.approval_status && is_awaiting_approval a.status
