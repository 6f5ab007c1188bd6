-- ===== src/Assessment/Mission/Steps.antt =====
-- src-tauri/src/assessment/mission.rs: what holds of a mission whatever is done to it, in whatever
-- order: the operations as steps of the store, and the stores that they reach.
use rust_forge.Base.{
  subst, ℕ, ◌+◌, ◌≤◌, Bool, true, ◌≡◌, sym, List, [], ◌∷◌, length, All, Option, ok, arith,
}
use rust_forge.Text.{Text}
use rust_forge.Assessment.Catalog.Spec.{Permission}
use rust_forge.Assessment.Planner.{PlannedCheck}
use rust_forge.Assessment.Mission.Status.{is_terminal, mission_text}
use rust_forge.Assessment.Mission.Run.{AssessmentStatus}
use rust_forge.Assessment.Mission.Data.{Store, Action, Resource, is_approved}
use rust_forge.Assessment.Mission.Control.{Env, attach_resource, send_message}
use rust_forge.Assessment.Mission.Approval.{
  ConfirmMissionContextInput, DecideAssessmentActionInput, confirm_context, decide_action,
  set_tool_permission,
}
use rust_forge.Assessment.Mission.Runs.{
  link_run_on, request_stop, sync_from_run_on, clear_steering_for_run,
}
use rust_forge.Assessment.Mission.Manual.{Surface, CoverageGap, select_manual_plans_for_run}
use rust_forge.Assessment.Mission.Handoffs.{HandoffWorld, create_handoff, link_handoff_replay}
use rust_forge.Assessment.Mission.Cleared.{HasConsent, needs_consent, is_released}
use rust_forge.Assessment.Mission.Audit.{Keeps, Keeps-refl, Keeps-trans, told}
use rust_forge.Assessment.Mission.Kept.{
  confirm_context-Keeps, decide_action-Keeps, request_stop-Keeps, sync_from_run_on-Keeps,
  link_run_on-Keeps, attach_resource-Keeps, send_message-Keeps, set_tool_permission-Keeps,
  clear_steering-Keeps,
}
use rust_forge.Assessment.Mission.Handed.{create_handoff-Keeps, link_handoff_replay-Keeps}
use rust_forge.Assessment.Mission.Selected.{select_manual_plans-Keeps}

-- The operations, each with what it was given; `import_openapi` writes what `attach_resource` does.
pub data Step : Store → Store → Type 0 where
  confirms :
      (env : Env) (input : ConfirmMissionContextInput) {s t : Store}
      → confirm_context env input s ≡ ok t
      → Step s t
  decides :
      (env : Env) (input : DecideAssessmentActionInput) {s t : Store}
      → decide_action env input s ≡ ok t
      → Step s t
  attaches :
      (expected_revision : ℕ) (resource : Resource) {s t : Store}
      → attach_resource expected_revision resource s ≡ ok t
      → Step s t
  messages :
      (expected_revision : ℕ) {s t : Store} → send_message expected_revision s ≡ ok t → Step s t
  permits :
      (tool_id : Text) (decision : Permission) (expected : Option ℕ) {s t : Store}
      → set_tool_permission tool_id decision expected s ≡ ok t
      → Step s t
  links : (run_id : ℕ) {s t : Store} → link_run_on run_id s ≡ ok t → Step s t
  stops :
      (env : Env) (expected_revision : ℕ) {s : Store} {r : Store × Option ℕ}
      → request_stop env expected_revision s ≡ ok r
      → Step s r.0
  syncs :
      (env : Env) (run_id : ℕ) (run_status : AssessmentStatus) (reason : Option Text)
      (checks : List Text) {s t : Store}
      → sync_from_run_on env run_id run_status reason checks s ≡ ok t
      → Step s t
  selects :
      (env : Env) (run_id : ℕ) (round_is_current : Bool) (surfaces : List Surface)
      (plans : List PlannedCheck) (allowed : Option (List Text)) {s : Store}
      {r : Store × List CoverageGap}
      → select_manual_plans_for_run env run_id round_is_current surfaces plans allowed s ≡ ok r
      → Step s r.0
  hands_off :
      (world : HandoffWorld) (action_id expected_revision : ℕ) {s t : Store}
      → create_handoff world action_id expected_revision s ≡ ok t
      → Step s t
  returns :
      (world : HandoffWorld) (handoff_id replay_run_id : ℕ) {s t : Store}
      → link_handoff_replay world handoff_id replay_run_id s ≡ ok t
      → Step s t
  clears : (run_id : ℕ) (s : Store) → Step s (clear_steering_for_run run_id s)

pub data Reaches : Store → Store → Type 0 where
  here : (s : Store) → Reaches s s
  next : {s t u : Store} → Step s t → Reaches t u → Reaches s u

step-Keeps : (s t : Store) → Step s t → Keeps s t
step-Keeps s t (confirms env input e) = (confirm_context-Keeps env input s).at t e
step-Keeps s t (decides env input e) = (decide_action-Keeps env input s).at t e
step-Keeps s t (attaches revision resource e) = (attach_resource-Keeps revision resource s).at t e
step-Keeps s t (messages revision e) = (send_message-Keeps revision s).at t e
step-Keeps s t (permits tool_id decision expected e) =
    (set_tool_permission-Keeps tool_id decision expected s).at t e
step-Keeps s t (links run_id e) = (link_run_on-Keeps run_id s).at t e
step-Keeps s t (stops env revision {r = r} e) = (request_stop-Keeps env revision s).at r e
step-Keeps s t (syncs env run_id run_status reason checks e) =
    (sync_from_run_on-Keeps env run_id run_status reason checks s).at t e
step-Keeps s t (selects env run_id current surfaces plans allowed {r = r} e) =
    (select_manual_plans-Keeps env run_id current surfaces plans allowed s).at r e
step-Keeps s t (hands_off world action_id revision e) =
    (create_handoff-Keeps world action_id revision s).at t e
step-Keeps s t (returns world handoff_id replay_run_id e) =
    (link_handoff_replay-Keeps world handoff_id replay_run_id s).at t e
step-Keeps s t (clears run_id _) = clear_steering-Keeps run_id s

reaches-Keeps : (s t : Store) → Reaches s t → Keeps s t
reaches-Keeps s t (here _) = Keeps-refl s
reaches-Keeps s u (next {t = t} step steps) =
    Keeps-trans s t u (step-Keeps s t step) (reaches-Keeps t u steps)

-- What the caller reads off `HasConsent`.
abbrev pub Consented : Action → Type 0
Consented a =
    needs_consent a ≡ true → is_released a.status ≡ true → is_approved a.approval_status ≡ true

HasConsent-Consented : (actions : List Action) → All HasConsent actions → All Consented actions
HasConsent-Consented [] h = tt
HasConsent-Consented (a ∷ actions) h =
    (λ needs released. ground (arith, h.0), HasConsent-Consented actions h.1)

-- Whatever is done to a mission that starts without actions, by the operations of `Step`, an action
-- that is a manual recipe or whose tool had to be asked about is queued, executed, handed to a person
-- or finished only when it is approved.
pub actions_are-Consented : (s t : Store) → s.actions ≡ [] → Reaches s t → All Consented t.actions
actions_are-Consented s t e steps =
    HasConsent-Consented t.actions
      ((reaches-Keeps s t steps).consent (subst (All HasConsent) (sym e) tt))

-- When the messages of a mission tell its status, they do so after any operations, and each new
-- revision has brought one message, and only revisions have.
pub messages_tell_status :
    (first : Text) (s t : Store)
    → told first s.messages ≡ mission_text s.mission.status
    → Reaches s t
    → (told first t.messages ≡ mission_text t.mission.status)
      × (t.mission.revision + length s.messages ≡ s.mission.revision + length t.messages)
messages_tell_status first s t e steps =
    let kept = reaches-Keeps s t steps in (kept.audited first e, kept.counted)

-- A mission that has ended keeps its status under all operations, and its revision never falls.
pub ended_missions_stay :
    (s t : Store)
    → is_terminal s.mission.status ≡ true
    → Reaches s t
    → (t.mission.status ≡ s.mission.status) × (s.mission.revision ≤ t.mission.revision)
ended_missions_stay s t e steps = let kept = reaches-Keeps s t steps in (kept.ended e, kept.grows)
