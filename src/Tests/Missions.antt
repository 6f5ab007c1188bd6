-- ===== src/Tests/Missions.antt =====
-- Missions of an assessment, and a plan of the model, at concrete inputs.
use rust_forge.Base.{
  All, ℕ, ◌+◌, ◌≤◌, ◌≡◌, refl, true, false, List, [], ◌∷◌, none, some, ok, ◌>>=◌, length,
}
use rust_forge.Text.{
  Text, codes, one_of, trim, trim_start_matches, trim_end_matches, is_whitespace, is_control,
}
use rust_forge.Text.Utf8.{as_bytes, encode_char}
use rust_forge.Assessment.Catalog.Spec.{safe_probe, guarded, ask, execute}
use rust_forge.Assessment.Planner.{
  PlannedCheck, parse_plan, validate_checks, validate_check, validate_token, strip_json_fence,
  is_same_check,
}
use rust_forge.Assessment.Planner.Parsed.{IsAccepted, parse_plan-IsAccepted}
use rust_forge.Assessment.Mission.Status.{
  draft, awaiting_action_approval, stopped, smart, automatic, mission_text, MissionStatus,
}
use rust_forge.Assessment.Mission.Data.{
  Mission, Store, Action, ToolPermission, pending, policy, awaiting_approval,
}
use rust_forge.Assessment.Mission.Tools.{permitted_tools, update_actions}
use rust_forge.Assessment.Mission.Control.{
  Env, ensure_revision, assert_mission_integrity, permission_hash_of, is_context_approved,
  append_message,
}
use rust_forge.Assessment.Mission.Approval.{
  ConfirmMissionContextInput, DecideAssessmentActionInput, confirm_context, confirmed,
  decide_action, find_action, decide_ids, decided, decision_noted, queue_when_decided,
  next_after_context, prepare_start,
}
use rust_forge.Assessment.Mission.Runs.{clear_steering_for_run}
use rust_forge.Assessment.Mission.Audit.{told}
use rust_forge.Assessment.Mission.Steps.{
  Reaches, here, next, confirms, clears, Consented, actions_are-Consented, messages_tell_status,
  ended_missions_stay,
}
use rust_forge.Assessment.Mission.Outcomes.{
  IsAskedIfManual, manual_tools_are_asked, decide_action-next, reconfirmed_missions_do_not_start,
}

abbrev hash : Text
hash = codes "0123456789abcdef0123456789abcdef0123456789abcdef0123456789abcdef"

abbrev env : Env
env = record {
  now = codes "2026-01-01";
  registry_hash = codes "r";
  hash_permissions = λ _ _. codes "p";
  next_id = 7;
  context_hash = some hash;
  contract_hash = some (codes "c");
}

abbrev new_mission : MissionStatus → Mission
new_mission status = record {
  goal = codes "SQL";
  status = status;
  autonomy_mode = smart;
  max_planning_cycles = 4;
  completed_cycles = 0;
  identity_a_profile_id = some 1;
  identity_b_profile_id = none;
  contract_hash = codes "c";
  tool_registry_hash = codes "r";
  permission_hash = codes "p";
  context_hash = some hash;
  context_approved_hash = some hash;
  active_run_id = none;
  legacy = false;
  revision = 1;
  pending_steering = false;
  stop_reason = [];
  started_at = none;
  ended_at = none;
}

abbrev store_of : MissionStatus → List Action → Store
store_of status actions = record {
  mission = new_mission status;
  actions = actions;
  messages = [];
  permissions = [];
  runs = [];
  resources = [];
}

abbrev question : ℕ → Action
question id = record {
  id = id;
  workstream = codes "access";
  tool_id = codes "jwt_integrity";
  tool_version = codes "1.1.0";
  execution_kind = safe_probe;
  risk_level = guarded;
  identity_mode = codes "a";
  request_cost = 4;
  permission_snapshot = ask;
  permission_hash = codes "p";
  approval_status = pending;
  approval_source = policy;
  status = awaiting_approval;
  policy_reason = codes "awaiting_user_approval";
  revision = 1;
  approved_at = none;
  started_at = none;
  completed_at = none;
  handoff = none;
}

abbrev input : ConfirmMissionContextInput
input = record { expected_revision = 1; context_hash = hash }

abbrev fresh : Store
fresh = store_of draft []

abbrev asked : Store
asked = store_of awaiting_action_approval (question 1 ∷ question 2 ∷ [])

abbrev after : Store → Store
after s = confirmed env hash (codes "c") s

fresh_confirms : confirm_context env input fresh ≡ ok (after fresh)
unfolding confirm_context ensure_revision as_bytes encode_char ◌>>=◌
fresh_confirms = refl

asked_confirms : confirm_context env input asked ≡ ok (after asked)
unfolding confirm_context ensure_revision as_bytes encode_char ◌>>=◌
asked_confirms = refl

abbrev confirmed_reach : Reaches fresh (after fresh)
confirmed_reach = next (confirms env input fresh_confirms) (here (after fresh))

actions_are-Consented_example : All Consented (after fresh).actions
actions_are-Consented_example = actions_are-Consented fresh (after fresh) refl confirmed_reach

nothing_told : told (codes "draft") [] ≡ codes "draft"
unfolding told
nothing_told = refl

messages_tell_status_example :
    (told (codes "draft") (after fresh).messages ≡ mission_text (after fresh).mission.status)
    × ((after fresh).mission.revision + 0 ≡ 1 + length (after fresh).messages)
messages_tell_status_example =
    messages_tell_status (codes "draft") fresh (after fresh) nothing_told confirmed_reach

abbrev over : Store
over = store_of stopped []

ended_missions_stay_example :
    ((clear_steering_for_run 3 over).mission.status ≡ stopped)
    × (1 ≤ (clear_steering_for_run 3 over).mission.revision)
ended_missions_stay_example =
    ended_missions_stay over (clear_steering_for_run 3 over) refl
      (next (clears 3 over) (here (clear_steering_for_run 3 over)))

abbrev decision : DecideAssessmentActionInput
decision = record {
  action_id = 2;
  expected_mission_revision = 1;
  expected_action_revision = 1;
  approve = true;
  apply_to_same_tool = false;
}

abbrev one_left : Store
one_left = decision_noted (question 1 ∷ decided env.now decision (question 2) ∷ []) asked

asked_decides : decide_action env decision asked ≡ ok one_left
unfolding decide_action ensure_revision assert_mission_integrity permission_hash_of
    is_context_approved find_action decide_ids update_actions queue_when_decided decision_noted
    decided append_message ◌>>=◌
asked_decides = refl

decide_action-next_example : one_left.mission.status ≡ next_after_context one_left.actions
decide_action-next_example = decide_action-next env decision asked one_left asked_decides

abbrev overrides : List ToolPermission
overrides = record { tool_id = codes "manual_sqli_recipe"; decision = execute; revision = 1 } ∷ []

manual_tools_are_asked_example : All IsAskedIfManual (permitted_tools automatic overrides)
manual_tools_are_asked_example = manual_tools_are_asked automatic overrides

reconfirmed_missions_do_not_start_example : ¬ (prepare_start env 2 (after asked) ≡ ok (codes "c"))
reconfirmed_missions_do_not_start_example =
    reconfirmed_missions_do_not_start env input asked (after asked) refl asked_confirms env 2
      (codes "c")

abbrev check : PlannedCheck
check = record {
  template_id = codes "open_redirect";
  endpoint_id = codes "ep_1";
  parameter_name = some (codes "next");
  identity_mode = codes "a";
  rationale = codes "why";
  workstream_key = none;
  expected_signal = codes "s";
}

check_accepted : parse_plan (λ _. some (check ∷ [])) (codes " {} ") ≡ ok (check ∷ [])
unfolding parse_plan validate_checks validate_check validate_token strip_json_fence is_same_check
    one_of trim trim_start_matches trim_end_matches is_whitespace is_control as_bytes encode_char
    ◌>>=◌
check_accepted = refl

parse_plan-IsAccepted_example : IsAccepted (check ∷ [])
parse_plan-IsAccepted_example =
    parse_plan-IsAccepted (λ _. some (check ∷ [])) (codes " {} ") (check ∷ []) check_accepted
