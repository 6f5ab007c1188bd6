-- ===== src/Assessment/Mission/Handoffs.antt =====
-- src-tauri/src/assessment/mission.rs: how an approved manual recipe is handed to a person, and how the
-- replay of that person is linked to it. A handoff is a field of its action. What the replay service
-- and the evidence service answer is the record `HandoffWorld`; drafts and JSON results are left out.
use rust_forge.Base.{
  ℕ, ◌+◌, Bool, true, false, not, ◌&&◌, ◌||◌, List, [], ◌∷◌, Option, none, some, is_some_and,
  Result, ok, ◌>>=◌, ◌>>◌, guard, ok_or, if◌then◌else◌, ◌==◌,
}
use rust_forge.Text.{Text}
use rust_forge.Assessment.Catalog.Spec.{is_manual}
use rust_forge.Assessment.Mission.Status.{is_terminal}
use rust_forge.Assessment.Mission.Data.{
  Store, Action, ActionStatus, Handoff, HandoffStatus, is_approved, is_with_person,
}
use rust_forge.Assessment.Mission.Transition.{
  MissionError, wrong_status, missing_action, not_ready_to_hand_off, missing_handoff,
  result_already_linked, replay_refused,
}
use rust_forge.Assessment.Mission.Tools.{update_actions}
use rust_forge.Assessment.Mission.Approval.{find_action}

pub record HandoffWorld : Type 0 where
  pub now : Text
  pub next_handoff_id : ℕ
  -- the manual session that is created, where it and the draft of the recipe succeed
  pub new_session : Option ℕ
  -- the session of a ReplayRun, if it is a manual one and that of the handoff
  pub session_of : (replay_run_id : ℕ) → Handoff → Option ℕ
  pub insert_evidence : (replay_run_id : ℕ) → Option ℕ

unfoldable pub is_ready_to_hand_off : (expected_revision : ℕ) → Action → Bool
is_ready_to_hand_off expected_revision a =
    a.revision == expected_revision
    && is_manual a.execution_kind
    && is_approved a.approval_status
    && is_with_person a.status

-- The row that was found, which passes the test.
abbrev pub is_row_to_hand_off : (action_id expected_revision : ℕ) → Action → Bool
is_row_to_hand_off action_id expected_revision a =
    a.id == action_id && is_ready_to_hand_off expected_revision a

abbrev pub handed_off : HandoffWorld → (session_id : ℕ) → Action → Action
handed_off world session_id a = record a {
  handoff = some (record {
    id = world.next_handoff_id;
    replay_session_id = some session_id;
    replay_run_id = none;
    evidence_id = none;
    status = HandoffStatus.draft_created;
  });
}

-- A handoff that is there is returned as it is.
unfoldable pub insert_handoff :
    HandoffWorld
    → (action_id expected_revision : ℕ) → Option Handoff
    → Store
    → Result MissionError Store
insert_handoff world action_id expected_revision (some existing) s = ok s
insert_handoff world action_id expected_revision none s = do
  session_id ← ok_or world.new_session replay_refused
  ok (record s {
    actions =
        update_actions (is_row_to_hand_off action_id expected_revision)
          (handed_off world session_id) s.actions;
  })

unfoldable pub create_handoff :
    HandoffWorld → (action_id expected_revision : ℕ) → Store → Result MissionError Store
create_handoff world action_id expected_revision s = do
  guard (not (s.mission.legacy || is_terminal s.mission.status)) (wrong_status s.mission.status)
  action ← ok_or (find_action action_id s.actions) missing_action
  guard (is_ready_to_hand_off expected_revision action) not_ready_to_hand_off
  insert_handoff world action_id expected_revision action.handoff s

abbrev pub has_handoff : ℕ → Action → Bool
has_handoff handoff_id a = is_some_and (λ (h : Handoff). h.id == handoff_id) a.handoff

unfoldable pub find_handoff : ℕ → List Action → Option Handoff
find_handoff handoff_id [] = none
find_handoff handoff_id (a ∷ actions) =
    if has_handoff handoff_id a then a.handoff else find_handoff handoff_id actions

abbrev pub is_result_linked : HandoffStatus → Bool
is_result_linked HandoffStatus.result_linked = true
is_result_linked _ = false

abbrev pub linked : (session_id replay_run_id evidence_id : ℕ) → Option Handoff → Option Handoff
linked session_id replay_run_id evidence_id none = none
linked session_id replay_run_id evidence_id (some h) = some (record h {
  replay_session_id = some session_id;
  replay_run_id = some replay_run_id;
  evidence_id = some evidence_id;
  status = HandoffStatus.result_linked;
})

abbrev pub result_pending :
    HandoffWorld → (session_id replay_run_id evidence_id : ℕ) → Action → Action
result_pending world session_id replay_run_id evidence_id a = record a {
  handoff = linked session_id replay_run_id evidence_id a.handoff;
  status = ActionStatus.manual_result_pending;
  revision = a.revision + 1;
  completed_at = some world.now;
}

unfoldable pub link_handoff_replay :
    HandoffWorld → (handoff_id replay_run_id : ℕ) → Store → Result MissionError Store
link_handoff_replay world handoff_id replay_run_id s = do
  handoff ← ok_or (find_handoff handoff_id s.actions) missing_handoff
  guard (not (is_result_linked handoff.status)) result_already_linked
  session_id ← ok_or (world.session_of replay_run_id handoff) replay_refused
  evidence_id ← ok_or (world.insert_evidence replay_run_id) replay_refused
  ok (record s {
    actions =
        update_actions (has_handoff handoff_id)
          (result_pending world session_id replay_run_id evidence_id) s.actions;
  })
