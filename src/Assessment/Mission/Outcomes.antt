-- ===== src/Assessment/Mission/Outcomes.antt =====
-- src-tauri/src/assessment/mission.rs: the results of single operations on a mission.
use rust_forge.Base.{
  ℕ, ◌+◌, Bool, true, false, not, map, ◌≡◌, refl, List, [], ◌∷◌, ◌++◌, any, any-append, All, Option,
  none, some, ok, Bool-cases, inl, inr, Ensures, Ensures-ok, Ensures-bind, Ensures-guard,
  Ensures-if, if◌then◌else◌, arith,
}
use rust_forge.Text.{Text}
use rust_forge.Assessment.Catalog.Spec.{ToolSpec, Permission, ask, execute, disabled, is_manual}
use rust_forge.Assessment.Mission.Status.{
  AutonomyMode, manual, smart, automatic, awaiting_action_approval,
}
use rust_forge.Assessment.Mission.Data.{Store, Action, ToolPermission, is_pending}
use rust_forge.Assessment.Catalog.{tool_specs}
use rust_forge.Assessment.Mission.Tools.{
  MissionToolDescriptor, effective_permission, override_of, is_disabled, described, enabled,
  permission_rows, permitted_tools, update_actions, cancel_open, planned_actions, prepare_actions,
}
use rust_forge.Assessment.Mission.Control.{
  Env, transition_mission_on, moved, append_message, permission_hash_of, is_undecided,
}
use rust_forge.Assessment.Mission.Approval.{
  ConfirmMissionContextInput, DecideAssessmentActionInput, confirm_context, confirmed,
  decide_action, decision_noted, queue_when_decided, queue_input, next_after_context, prepare_start,
}
use rust_forge.Assessment.Mission.Kept.{status_eq→eq}

-- A manual recipe is at most asked about.
asked :
    (mode : AutonomyMode) (spec : ToolSpec) (decision : Option Permission)
    → is_manual spec.execution_kind ≡ true
    → is_disabled (effective_permission mode spec decision) ≡ false
    → effective_permission mode spec decision ≡ ask
unfolding effective_permission
asked mode spec (some disabled) h e = absurd (ground arith)
asked mode spec (some ask) h e = refl
asked mode spec (some execute) h e = ground arith
asked manual spec none h e = ground arith
asked smart spec none h e = ground arith
asked automatic spec none h e = ground arith

abbrev pub IsAskedIfManual : MissionToolDescriptor → Type 0
IsAskedIfManual d = is_manual d.spec.execution_kind ≡ true → d.effective_permission ≡ ask

if-asked :
    (test : Bool) (d : MissionToolDescriptor) (ds : List MissionToolDescriptor)
    → (test ≡ false → IsAskedIfManual d)
    → All IsAskedIfManual ds
    → All IsAskedIfManual (if test then ds else d ∷ ds)
if-asked true d ds one rest = rest
if-asked false d ds one rest = (one refl, rest)

enabled_asked :
    (mode : AutonomyMode) (overrides : List ToolPermission) (specs : List ToolSpec)
    → All IsAskedIfManual (enabled (map (described mode overrides) specs))
unfolding enabled described
enabled_asked mode overrides [] = tt
enabled_asked mode overrides (spec ∷ specs) =
    if-asked (is_disabled (effective_permission mode spec (override_of overrides spec.id)))
      (described mode overrides spec) _ (λ e h. asked mode spec (override_of overrides spec.id) h e)
      (enabled_asked mode overrides specs)

-- Under every autonomy mode and whatever permissions are stored, each manual recipe among the
-- tools of a mission is to be asked about.
pub manual_tools_are_asked :
    (mode : AutonomyMode) (overrides : List ToolPermission)
    → All IsAskedIfManual (permitted_tools mode overrides)
unfolding permitted_tools permission_rows
manual_tools_are_asked mode overrides = enabled_asked mode overrides tool_specs

module _ (env : Env) where
  queue_when_decided-next :
      (revision : ℕ) (s : Store)
      → s.mission.status ≡ awaiting_action_approval
      → Ensures
          (λ (t : Store). t.mission.status ≡ next_after_context t.actions)
          (queue_when_decided env revision s)
  unfolding queue_when_decided transition_mission_on moved append_message
  queue_when_decided-next revision s waits =
      Ensures-if (not (any is_undecided s.actions))
        (transition_mission_on env (queue_input revision) s) (ok s)
        (λ none_left. Ensures-bind _ _ λ _ _. Ensures-guard _ _ _ λ _. Ensures-ok _ (ground arith))
        (λ some_left. Ensures-ok s (ground (arith, waits)))

  decide_action-Ensures :
      (input : DecideAssessmentActionInput) (s : Store)
      → Ensures
          (λ (t : Store). t.mission.status ≡ next_after_context t.actions)
          (decide_action env input s)
  unfolding decide_action decision_noted append_message
  decide_action-Ensures input s = Ensures-bind _ _ λ _ _. Ensures-guard _ _ _ λ waits.
      Ensures-bind _ _ λ _ _. Ensures-bind _ _ λ _ _. Ensures-guard _ _ _ λ _.
        Ensures-bind _ _ λ actions _.
          queue_when_decided-next (s.mission.revision + 1) (decision_noted actions s)
            (status_eq→eq _ _ waits)

  -- A decision that succeeds leaves the mission waiting for approvals when some action of the new
  -- store is undecided, and queued when none is.
  pub decide_action-next :
      (input : DecideAssessmentActionInput) (s t : Store)
      → decide_action env input s ≡ ok t
      → t.mission.status ≡ next_after_context t.actions
  decide_action-next input s t e = (decide_action-Ensures input s).at t e

abbrev is_pending_action : Action → Bool
is_pending_action a = is_pending a.approval_status

any_left : (p : Action → Bool) (xs ys : List Action) → any p xs ≡ true → any p (xs ++ ys) ≡ true
any_left p xs ys e = ground (arith, any-append p xs ys, e)

-- Cancelling an action does not decide it.
cancelled_is_pending :
    (now : Text) (actions : List Action)
    → any is_undecided actions ≡ true
    → any is_pending_action (cancel_open now actions) ≡ true
unfolding update_actions
cancelled_is_pending now [] e = absurd (ground arith)
cancelled_is_pending now (a ∷ actions) e = elim (Bool-cases (is_undecided a)) [
  | inl held ↦ ground arith
  | inr other ↦ let rest = cancelled_is_pending now actions (ground arith) in ground (arith, rest)
]

prepare_start-Ensures :
    (env : Env) (revision : ℕ) (s : Store)
    → Ensures (λ _. any is_pending_action s.actions ≡ false) (prepare_start env revision s)
unfolding prepare_start
prepare_start-Ensures env revision s = Ensures-bind _ _ λ _ _. Ensures-guard _ _ _ λ _.
    Ensures-guard _ _ _ λ _. Ensures-bind _ _ λ _ _. Ensures-guard _ _ _ λ none_left.
      Ensures-bind _ _ λ contract _. Ensures-guard _ _ _ λ _. Ensures-ok _ (ground arith)

confirmed_is_pending :
    (env : Env) (input : ConfirmMissionContextInput) (s : Store)
    → any is_undecided s.actions ≡ true
    → Ensures (λ (t : Store). any is_pending_action t.actions ≡ true) (confirm_context env input s)
unfolding confirm_context confirmed prepare_actions
confirmed_is_pending env input s e = Ensures-bind _ _ λ _ _. Ensures-guard _ _ _ λ _.
    Ensures-bind _ _ λ _ _. Ensures-guard _ _ _ λ _. Ensures-bind _ _ λ _ _. Ensures-ok _ (
      any_left is_pending_action (cancel_open env.now s.actions)
        (planned_actions s.mission (permission_hash_of env s) env.next_id
          (permitted_tools s.mission.autonomy_mode s.permissions))
        (cancelled_is_pending env.now s.actions e))

-- When the context of a mission is confirmed while an action is undecided, the store that results
-- does not start, under no revision and whatever the environment: the action is cancelled but
-- stays pending.
pub reconfirmed_missions_do_not_start :
    (env : Env) (input : ConfirmMissionContextInput) (s t : Store)
    → any is_undecided s.actions ≡ true
    → confirm_context env input s ≡ ok t
    → (later : Env) (revision : ℕ) (contract : Text)
    → ¬ (prepare_start later revision t ≡ ok contract)
reconfirmed_missions_do_not_start env input s t e confirms later revision contract starts =
    let pending = (confirmed_is_pending env input s e).at t confirms in
    let none_left = (prepare_start-Ensures later revision t).at contract starts in
    absurd (ground (arith, pending, none_left))
