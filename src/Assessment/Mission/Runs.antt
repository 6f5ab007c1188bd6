-- ===== src/Assessment/Mission/Runs.antt =====
-- src-tauri/src/assessment/mission.rs: a mission and its runs: the run that is linked to it, the stop
-- that a user asks for, and the status and the actions that follow the run. The statuses of
-- workstreams and the JSON results of actions are left out.
use rust_forge.Base.{
  ℕ, ◌+◌, Bool, true, false, not, ◌&&◌, ◌||◌, List, [], ◌∷◌, ◌++◌, any, min, Option, none, some,
  is_some, Result, ok, ◌>>=◌, ◌>>◌, guard, ok_or, if◌then◌else◌, ◌==◌,
}
use rust_forge.Text.{Text, codes, text_eq}
use rust_forge.Assessment.Catalog.Spec.{is_observe, is_manual}
use rust_forge.Assessment.Mission.Status.{
  MissionStatus, status_eq, is_terminal, is_network_active, queued, stopped,
  awaiting_manual_handoff,
}
use rust_forge.Assessment.Mission.Run.{AssessmentStatus, mirrored, is_completed}
use rust_forge.Assessment.Mission.Data.{
  Store, Action, ActionStatus, MissionRun, is_cleared, is_queued, is_approved, is_stoppable,
  is_with_person,
}
use rust_forge.Assessment.Mission.Transition.{
  MissionError, wrong_status, is_read_only, missing_active_run,
}
use rust_forge.Assessment.Mission.Tools.{update_actions, is_safe_probe}
use rust_forge.Assessment.Mission.Control.{
  Env, ensure_revision, append_message, status_message, remark, transition_mission_on,
}

unfoldable pub link_run_on : (run_id : ℕ) → Store → Result MissionError Store
link_run_on run_id s = do
  guard (status_eq s.mission.status queued && not (is_some s.mission.active_run_id))
      (wrong_status s.mission.status)
  let revision = s.mission.revision + 1
  let noted = append_message (remark (codes "system") (codes "summary") revision) s
  ok (record noted {
    runs = s.runs ++ record { run_id = run_id; cycle = s.mission.completed_cycles + 1 } ∷ [];
    mission = record s.mission { active_run_id = some run_id; revision = revision };
  })

-- The branch for a mission whose run is sending requests.
unfoldable pub request_stop_of_run : Store → Store
request_stop_of_run s =
    let revision = s.mission.revision + 1 in
    let noted =
      append_message (status_message (codes "user") s.mission.status s.mission.status revision) s in
    record noted {
      mission = record s.mission { revision = revision; stop_reason = codes "user_stop_requested" };
    }

unfoldable pub cancel_action : Text → Action → Action
cancel_action now a = record a { status = ActionStatus.cancelled; completed_at = some now }

abbrev pub transition_to : Option Text → MissionStatus → Env → Store → Result MissionError Store
transition_to reason next env s =
    transition_mission_on env
      (record {
        current = s.mission.status;
        next = next;
        current_revision = s.mission.revision;
        stop_reason = reason;
      })
      s

-- The branch for a mission that waits.
unfoldable pub waiting_cancelled : Env → Store → Store
waiting_cancelled env s = record s {
  actions =
      update_actions (λ (a : Action). is_stoppable a.status) (cancel_action env.now) s.actions;
}

unfoldable pub stop_while_waiting : Env → Store → Result MissionError Store
stop_while_waiting env s =
    transition_to (some (codes "user_stopped_while_waiting")) stopped env (waiting_cancelled env s)

abbrev pub stop_running : Store → Result MissionError (Store × Option ℕ)
stop_running s = do
  run_id ← ok_or s.mission.active_run_id missing_active_run
  ok (request_stop_of_run s, some run_id)

abbrev pub stop_waiting : Env → Store → Result MissionError (Store × Option ℕ)
stop_waiting env s = do t ← stop_while_waiting env s; ok (t, none)

-- With the run that the caller has to cancel.
unfoldable pub request_stop :
    Env → (expected_revision : ℕ) → Store → Result MissionError (Store × Option ℕ)
request_stop env expected_revision s = do
  ensure_revision s.mission.revision expected_revision
  guard (not (s.mission.legacy || is_terminal s.mission.status)) is_read_only
  if is_network_active s.mission.status then stop_running s else stop_waiting env s

-- `ORDER BY id DESC LIMIT 1`: the last of the rows that pass the test.
unfoldable pub update_last : (Action → Bool) → (Action → Action) → List Action → List Action
update_last p f [] = []
update_last p f (a ∷ actions) =
    let rest = update_last p f actions in
    if p a && not (any p actions) then f a ∷ actions else a ∷ rest

abbrev pub finish : ActionStatus → Text → Action → Action
finish status now a = record a {
  status = status;
  completed_at = some now;
  revision = a.revision + 1;
}

abbrev pub is_cleared_for : Text → Action → Bool
is_cleared_for tool_id a = text_eq a.tool_id tool_id && is_cleared a.approval_status

-- The loop over the checks of the run, by the tool of each.
unfoldable pub complete_checks : Text → List Text → List Action → List Action
complete_checks now [] actions = actions
complete_checks now (tool_id ∷ checks) actions =
    complete_checks now checks
      (update_last (is_cleared_for tool_id) (finish ActionStatus.completed now) actions)

abbrev pub is_queued_observation : Action → Bool
is_queued_observation a = is_observe a.execution_kind && is_queued a.status

abbrev pub is_queued_probe : Action → Bool
is_queued_probe a =
    is_queued a.status && (is_safe_probe a.execution_kind || is_manual a.execution_kind)

-- What becomes of the actions that are still queued.
unfoldable pub close_queued : Text → (run_completed : Bool) → List Action → List Action
close_queued now true actions =
    update_actions is_queued_probe (finish ActionStatus.skipped now)
      (update_actions is_queued_observation (finish ActionStatus.completed now) actions)
close_queued now false actions =
    update_actions (λ (a : Action). is_queued a.status) (finish ActionStatus.cancelled now) actions

unfoldable pub sync_actions_from_run_on :
    Text → (checks : List Text) → (run_completed : Bool) → List Action → List Action
sync_actions_from_run_on now checks run_completed actions =
    close_queued now run_completed (complete_checks now checks actions)

-- `execution_kind='manual_recipe' AND approval_status='approved' AND status IN (…)`
abbrev pub is_handed_over : Action → Bool
is_handed_over a =
    is_manual a.execution_kind && is_approved a.approval_status && is_with_person a.status

-- The status that the mission takes.
unfoldable pub followed : AssessmentStatus → List Action → MissionStatus
followed run_status actions =
    if is_completed run_status && any is_handed_over actions
    then awaiting_manual_handoff
    else mirrored run_status

-- A run that is over leaves the mission and closes its actions.
unfoldable pub run_left : Env → (checks : List Text) → AssessmentStatus → Store → Store
run_left env checks run_status s = record s {
  mission = record s.mission {
    active_run_id = none;
    completed_cycles = min s.mission.max_planning_cycles (s.mission.completed_cycles + 1);
  };
  actions = sync_actions_from_run_on env.now checks (is_completed run_status) s.actions;
}

abbrev pub is_over : MissionStatus → Bool
is_over next = is_terminal next || status_eq next awaiting_manual_handoff

-- The end of `sync_from_run_on`.
unfoldable pub release_run :
    Env → (checks : List Text) → AssessmentStatus → MissionStatus → Store → Store
release_run env checks run_status next s =
    if is_over next then run_left env checks run_status s else s

abbrev pub is_run : ℕ → MissionRun → Bool
is_run run_id r = r.run_id == run_id

unfoldable pub without_steering : Store → Store
without_steering s = record s { mission = record s.mission { pending_steering = false } }

unfoldable pub clear_steering_for_run : ℕ → Store → Store
clear_steering_for_run run_id s = if any (is_run run_id) s.runs then without_steering s else s

-- A run that is not linked to this mission, or a mission of an older version, or no change.
abbrev pub is_unaffected : ℕ → MissionStatus → Store → Bool
is_unaffected run_id next s =
    not (any (is_run run_id) s.runs && not s.mission.legacy) || status_eq s.mission.status next

abbrev pub follow :
    Option Text
    → Env
    → List Text
    → AssessmentStatus
    → MissionStatus
    → Store
    → Result MissionError Store
follow reason env checks run_status next s = do
  t ← transition_to reason next env s
  ok (release_run env checks run_status next t)

-- `checks` are the tools of the checks of the run, in the order of their ids.
unfoldable pub sync_from_run_on :
    Env
    → (run_id : ℕ) → AssessmentStatus
    → (reason : Option Text) → (checks : List Text) → Store
    → Result MissionError Store
sync_from_run_on env run_id run_status reason checks s =
    let next = followed run_status s.actions in
    if is_unaffected run_id next s then ok s else follow reason env checks run_status next s
