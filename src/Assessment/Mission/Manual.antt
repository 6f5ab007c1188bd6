-- ===== src/Assessment/Mission/Manual.antt =====
-- src-tauri/src/assessment/mission.rs: the manual recipes that the model selects for a run
-- (`select_manual_plans_for_run`). Nothing is sent: an action that is selected waits for a person.
use rust_forge.Base.{
  ℕ, ◌+◌, Bool, true, false, not, ◌&&◌, ◌||◌, List, [], ◌∷◌, ◌++◌, any, Option, none, some, is_some,
  is_some_and, Result, ok, err, ◌>>=◌, ◌>>◌, guard, ok_or, if◌then◌else◌, ◌==◌,
}
use rust_forge.Text.{Text, codes, text_eq, one_of}
use rust_forge.Assessment.Catalog.{tool}
use rust_forge.Assessment.Catalog.Spec.{ToolSpec, is_manual}
use rust_forge.Assessment.Planner.{PlannedCheck}
use rust_forge.Assessment.Mission.Status.{status_eq, planning}
use rust_forge.Assessment.Mission.Data.{
  Mission, Store, Action, ActionStatus, is_cleared, is_queued, is_approved,
}
use rust_forge.Assessment.Mission.Transition.{
  MissionError, revision_conflict, wrong_status, is_read_only, missing_active_run,
}
use rust_forge.Assessment.Mission.Runs.{is_run}
use rust_forge.Assessment.Mission.Tools.{update_actions}
use rust_forge.Assessment.Mission.Control.{Env, append_message, remark, assert_mission_integrity}

-- A row of `assessment_endpoints` of the run, by the id that the model is shown.
pub record Surface : Type 0 where
  pub endpoint_id : Text
  pub method : Text
  pub query_parameter_names : List Text

-- A row that `select_manual_plans_for_run` adds to `assessment_coverage_gaps`.
pub record CoverageGap : Type 0 where
  pub template_id : Text
  pub reason : Text

abbrev pub latest : {A : Type 0} → (A → Bool) → Option A → List A → Option A
latest p best [] = best
latest p best (a ∷ rows) = let next = if p a then some a else best in latest p next rows

abbrev pub is_selectable : Text → Action → Bool
is_selectable id a =
    text_eq a.tool_id id
    && is_manual a.execution_kind
    && is_approved a.approval_status
    && is_queued a.status

abbrev pub reason_unless : Bool → Text → Option Text → Option Text
reason_unless true reason rest = rest
reason_unless false reason rest = some reason

abbrev pub is_named : Option Surface → Text → Bool
is_named surface name =
    is_some_and (λ (row : Surface). one_of row.query_parameter_names name) surface

-- The chain of tests that gives `rejection`.
unfoldable pub rejection :
    Mission → List Text → ToolSpec → PlannedCheck → Option Surface → Option Action → Option Text
rejection mission allowed spec plan surface action =
    let has_a = is_some mission.identity_a_profile_id in
    let has_b = is_some mission.identity_b_profile_id in
    let mode = plan.identity_mode in
    reason_unless (one_of allowed spec.id) (codes "manual_tool_not_approved") (
      reason_unless (is_some action) (codes "manual_action_not_queued") (
        reason_unless (is_some surface) (codes "manual_surface_not_in_run") (
          reason_unless (is_some_and (λ (row : Surface). text_eq row.method (codes "GET")) surface)
            (codes "manual_surface_requires_get")
            (reason_unless (one_of spec.allowed_identity_modes mode)
              (codes "manual_identity_mode_not_allowed")
              (reason_unless (not (text_eq mode (codes "a") && not has_a))
                (codes "manual_identity_a_missing")
                (reason_unless (not (text_eq mode (codes "b") && not has_b))
                  (codes "manual_identity_b_missing")
                  (reason_unless (not (text_eq mode (codes "a_vs_b") && (not has_a || not has_b)))
                    (codes "manual_dual_identity_missing")
                    (reason_unless
                      (not (spec.requires_parameter && not (is_some plan.parameter_name)))
                      (codes "manual_parameter_required")
                      (reason_unless
                        (not (is_some_and (λ p. not (is_named surface p)) plan.parameter_name))
                        (codes "manual_parameter_not_in_inventory")
                        (reason_unless
                          (not (
                            is_some_and
                              (λ key.
                                not (is_some_and (λ (a : Action). text_eq a.workstream key) action))
                              plan.workstream_key))
                          (codes "manual_workstream_not_allowed") none))))))))))

-- What the loop has done so far.
pub record Selection : Type 0 where
  pub actions : List Action
  pub gaps : List CoverageGap
  pub accepted : ℕ

abbrev pub is_row_to_select : Action → Action → Bool
is_row_to_select chosen a =
    a.id == chosen.id
    && a.revision == chosen.revision
    && is_queued a.status
    && is_approved a.approval_status

abbrev pub make_ready : Text → Action → Action
make_ready now a = record a {
  status = ActionStatus.manual_ready;
  revision = a.revision + 1;
  started_at = some now;
}

abbrev pub refuse : PlannedCheck → Text → Selection → Selection
refuse plan reason s = record s {
  gaps = s.gaps ++ record { template_id = plan.template_id; reason = reason } ∷ [];
}

-- `UPDATE … WHERE id=?1 AND revision=?4 AND …`, where one row changes.
unfoldable pub accept : Env → Option Action → Selection → Result MissionError Selection
accept env none s = err revision_conflict
accept env (some chosen) s = do
  guard (any (is_row_to_select chosen) s.actions) revision_conflict
  ok (record s {
    actions = update_actions (is_row_to_select chosen) (make_ready env.now) s.actions;
    accepted = s.accepted + 1;
  })

abbrev pub after_rejection :
    Env → PlannedCheck → Option Action → Option Text → Selection → Result MissionError Selection
after_rejection env plan action (some reason) s = ok (refuse plan reason s)
after_rejection env plan action none s = accept env action s

module _ (env : Env) (mission : Mission) (allowed : List Text) (surfaces : List Surface) where
  -- The body of the loop for a manual recipe.
  unfoldable pub select_recipe : ToolSpec → PlannedCheck → Selection → Result MissionError Selection
  select_recipe spec plan s =
      let surface =
        latest (λ (row : Surface). text_eq row.endpoint_id plan.endpoint_id) none surfaces in
      let action = latest (is_selectable spec.id) none s.actions in
      after_rejection env plan action (rejection mission allowed spec plan surface action) s

  -- The body of the loop, for the tool that the plan names.
  abbrev pub select_spec :
      Option ToolSpec → PlannedCheck → Selection → Result MissionError Selection
  select_spec none plan s = ok s
  select_spec (some spec) plan s =
      if is_manual spec.execution_kind then select_recipe spec plan s else ok s

  unfoldable pub select_plan : PlannedCheck → Selection → Result MissionError Selection
  select_plan plan s = select_spec (tool plan.template_id) plan s

  unfoldable pub select_plans : List PlannedCheck → Selection → Result MissionError Selection
  select_plans [] s = ok s
  select_plans (plan ∷ plans) s = do next ← select_plan plan s; select_plans plans next

-- With the message and the revision of the selection.
unfoldable pub selection_audited : Selection → Store → Store
selection_audited done s =
    let revision = s.mission.revision + 1 in
    let noted = append_message (remark (codes "assistant") (codes "result") revision) s in
    record noted { actions = done.actions; mission = record s.mission { revision = revision } }

unfoldable pub selection_noted : Selection → Store → Store
selection_noted done s =
    if done.accepted == 0 then record s { actions = done.actions } else selection_audited done s

-- `select_manual_plans_for_run` on plans that are not empty, with the gaps that it records.
unfoldable pub select_manual_plans_for_run :
    Env
    → (run_id : ℕ) → (round_is_current : Bool) → List Surface
    → List PlannedCheck
    → (allowed_tool_ids : Option (List Text)) → Store
    → Result MissionError (Store × List CoverageGap)
select_manual_plans_for_run env run_id round_is_current surfaces plans allowed_tool_ids s = do
  allowed ← ok_or allowed_tool_ids is_read_only
  guard
      (any (is_run run_id) s.runs
        && not s.mission.legacy
        && is_some_and (λ r. r == run_id) s.mission.active_run_id)
      missing_active_run
  guard (status_eq s.mission.status planning) (wrong_status s.mission.status)
  assert_mission_integrity env s
  guard round_is_current (wrong_status s.mission.status)
  done ←
      select_plans env s.mission allowed surfaces plans
        (record { actions = s.actions; gaps = []; accepted = 0 })
  ok (selection_noted done s, done.gaps)

-- `allowed_planner_tools_for_run`: the tools of the actions that are cleared and queued.
unfoldable pub allowed_planner_tools : List Action → List Text
allowed_planner_tools [] = []
allowed_planner_tools (a ∷ actions) =
    let rest = allowed_planner_tools actions in
    if is_cleared a.approval_status && is_queued a.status then a.tool_id ∷ rest else rest
