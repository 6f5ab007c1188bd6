-- ===== src/Assessment/Mission/Kept.antt =====
-- src-tauri/src/assessment/mission.rs: each operation keeps what `Mission/Audit.antt` says.
use rust_forge.Base.{
  get_elem?, some-injective, Bool-cases, inl, inr, ℕ, ◌+◌, true, false, not, ◌≡◌, refl, sym, ◌∙◌,
  ap, List, [], ◌∷◌, any, Option, none, some, All, ok, Ensures, Ensures-ok, Ensures-bind,
  Ensures-guard, Ensures-if, Ensures-mono, and-eq-true, ==_iff, arith,
}
use rust_forge.Text.{Text}
use rust_forge.Assessment.Catalog.Spec.{Permission}
use rust_forge.Assessment.Mission.Status.{
  MissionStatus, draft, awaiting_context_approval, queued, discovering, planning,
  awaiting_action_approval, executing, verifying, awaiting_manual_handoff, completed, stopped,
  cancelled, failed, interrupted, place, status_eq, is_terminal, is_network_active,
}
use rust_forge.Assessment.Mission.Run.{AssessmentStatus, is_completed}
use rust_forge.Assessment.Mission.Transition.{is_allowed, validate_mission_transition}
use rust_forge.Assessment.Mission.Data.{Store, Action, Resource}
use rust_forge.Assessment.Mission.Control.{
  Env, MissionTransitionInput, transition_mission_on, moved, append_message, bump_context_revision,
  attach_resource, send_message, is_undecided,
}
use rust_forge.Assessment.Mission.Approval.{
  ConfirmMissionContextInput, DecideAssessmentActionInput, confirm_context, confirmed,
  decide_action, queue_when_decided, queue_input, decision_noted, set_tool_permission,
}
use rust_forge.Assessment.Mission.Runs.{
  link_run_on, request_stop, request_stop_of_run, stop_while_waiting, sync_from_run_on, release_run,
  clear_steering_for_run, transition_to, stop_running, stop_waiting, waiting_cancelled, run_left,
  is_over, is_unaffected, is_run, without_steering, follow, followed,
}
use rust_forge.Assessment.Mission.Cleared.{
  HasConsent, prepare_actions-HasConsent, stop-HasConsent, decide_ids-HasConsent,
  sync_actions-HasConsent,
}
use rust_forge.Assessment.Mission.Audit.{
  Keeps, Keeps-refl, Keeps-trans, if-Keeps, Keeps-quiet, Keeps-noted,
}

abbrev at_place : ℕ → Option MissionStatus
at_place = get_elem? (
    draft ∷ awaiting_context_approval ∷ queued ∷ discovering ∷ planning ∷ awaiting_action_approval
    ∷ executing ∷ verifying ∷ awaiting_manual_handoff ∷ completed ∷ stopped ∷ cancelled ∷ failed
    ∷ interrupted ∷ [])

at_place-place : (s : MissionStatus) → at_place (place s) ≡ some s
at_place-place s = ground arith

pub status_eq→eq : (s t : MissionStatus) → status_eq s t ≡ true → s ≡ t
status_eq→eq s t e =
    some-injective
      (sym (at_place-place s) ∙ ap at_place ((==_iff (place s) (place t)).0 e) ∙ at_place-place t)

terminal_forbids :
    (current next : MissionStatus) → is_terminal current ≡ true → is_allowed current next ≡ false
terminal_forbids current next e = ground arith

-- A transition that is accepted does not leave an end.
pub transition_ends :
    (current next : MissionStatus)
    → validate_mission_transition current next ≡ ok tt
    → is_terminal current ≡ true
    → next ≡ current
unfolding validate_mission_transition
transition_ends current next h e = elim (Bool-cases (status_eq current next)) [
  | inl same ↦ sym (status_eq→eq current next same)
  | inr other ↦ absurd (ground (arith, terminal_forbids current next e, other, h))
]

module _ (env : Env) where
  pub transition-Keeps :
      (input : MissionTransitionInput) (s : Store)
      → Ensures (Keeps s) (transition_mission_on env input s)
  unfolding transition_mission_on moved append_message
  transition-Keeps input s = Ensures-bind _ _ λ _ valid. Ensures-guard _ _ _ λ live.
      let rev : s.mission.revision ≡ input.current_revision =
        (==_iff _ _).0 (and-eq-true _ _ live).0 in
      let here : s.mission.status ≡ input.current = status_eq→eq _ _ (and-eq-true _ _ live).1 in
      Ensures-ok _ (
        Keeps-noted s _ _ refl (omega (arith, rev)) (λ c. c) refl
          (λ e. transition_ends _ _ valid (ap is_terminal (sym here) ∙ e) ∙ sym here))

  pub confirm_context-Keeps :
      (input : ConfirmMissionContextInput) (s : Store)
      → Ensures (Keeps s) (confirm_context env input s)
  unfolding confirm_context confirmed append_message
  confirm_context-Keeps input s = Ensures-bind _ _ λ _ _. Ensures-guard _ _ _ λ open_status.
      Ensures-bind _ _ λ _ _. Ensures-guard _ _ _ λ _. Ensures-bind _ _ λ _ _. Ensures-ok _ (
        Keeps-noted s _ _ refl refl
          (prepare_actions-HasConsent env.now env.next_id s.mission _ _ s.actions) refl
          (λ e. absurd (ground arith)))

  queue_when_decided-Keeps :
      (revision : ℕ) (s : Store) → Ensures (Keeps s) (queue_when_decided env revision s)
  unfolding queue_when_decided
  queue_when_decided-Keeps revision s =
      Ensures-if (not (any is_undecided s.actions))
        (transition_mission_on env (queue_input revision) s) _ (λ _. transition-Keeps _ s)
        (λ _. Ensures-ok s (Keeps-refl s))

  decision_noted-Keeps :
      (actions : List Action) (s : Store)
      → (All HasConsent s.actions → All HasConsent actions)
      → Keeps s (decision_noted actions s)
  unfolding decision_noted append_message
  decision_noted-Keeps actions s c =
      Keeps-noted s (decision_noted actions s) _ refl refl c refl (λ _. refl)

  pub decide_action-Keeps :
      (input : DecideAssessmentActionInput) (s : Store)
      → Ensures (Keeps s) (decide_action env input s)
  unfolding decide_action
  decide_action-Keeps input s = Ensures-bind _ _ λ _ _. Ensures-guard _ _ _ λ _.
      Ensures-bind _ _ λ _ _. Ensures-bind _ _ λ _ _. Ensures-guard _ _ _ λ _.
        Ensures-bind _ _ λ actions decided.
          Ensures-mono
            (λ t. Keeps-trans s (decision_noted actions s) t (
              decision_noted-Keeps actions s
                (λ c. (decide_ids-HasConsent env.now input _ s.actions c).at actions decided)))
            (queue_when_decided-Keeps (s.mission.revision + 1) (decision_noted actions s))

  abbrev KeepsFirst : Store → Store × Option ℕ → Type 0
  KeepsFirst s r = Keeps s r.0

  stop_running-Keeps : (s : Store) → Ensures (KeepsFirst s) (stop_running s)
  unfolding request_stop_of_run append_message
  stop_running-Keeps s = Ensures-bind _ _ λ run_id _.
      Ensures-ok (request_stop_of_run s, some run_id)
        (Keeps-noted s (request_stop_of_run s) _ refl refl (λ c. c) refl (λ _. refl))

  waiting_cancelled-Keeps : (s : Store) → Keeps s (waiting_cancelled env s)
  unfolding waiting_cancelled
  waiting_cancelled-Keeps s =
      Keeps-quiet s (waiting_cancelled env s) refl refl refl (stop-HasConsent env.now s.actions)

  stop_waiting-Keeps : (s : Store) → Ensures (KeepsFirst s) (stop_waiting env s)
  unfolding stop_while_waiting
  stop_waiting-Keeps s = Ensures-bind (stop_while_waiting env s) _ λ t stopped_ok.
      Ensures-ok (t, none)
        (Keeps-trans s (waiting_cancelled env s) t (waiting_cancelled-Keeps s)
          ((transition-Keeps _ (waiting_cancelled env s)).at t stopped_ok))

  pub request_stop-Keeps :
      (expected_revision : ℕ) (s : Store)
      → Ensures (KeepsFirst s) (request_stop env expected_revision s)
  unfolding request_stop
  request_stop-Keeps expected_revision s = Ensures-bind _ _ λ _ _. Ensures-guard _ _ _ λ _.
      Ensures-if (is_network_active s.mission.status) (stop_running s) (stop_waiting env s)
        (λ _. stop_running-Keeps s) (λ _. stop_waiting-Keeps s)

  run_left-Keeps :
      (checks : List Text) (run_status : AssessmentStatus) (s : Store)
      → Keeps s (run_left env checks run_status s)
  unfolding run_left
  run_left-Keeps checks run_status s =
      Keeps-quiet s (run_left env checks run_status s) refl refl refl
        (sync_actions-HasConsent env.now checks (is_completed run_status) s.actions)

  pub sync_from_run_on-Keeps :
      (run_id : ℕ) (run_status : AssessmentStatus) (reason : Option Text) (checks : List Text)
      (s : Store)
      → Ensures (Keeps s) (sync_from_run_on env run_id run_status reason checks s)
  unfolding sync_from_run_on release_run
  sync_from_run_on-Keeps run_id run_status reason checks s =
      let next = followed run_status s.actions in
      Ensures-if (is_unaffected run_id next s) (ok s) (follow reason env checks run_status next s)
        (λ _. Ensures-ok s (Keeps-refl s))
        (λ _. Ensures-bind (transition_to reason next env s) _ λ t moved_to.
          Ensures-ok (release_run env checks run_status next t) (
            Keeps-trans s t _ ((transition-Keeps _ s).at t moved_to)
              (if-Keeps t _ (is_over next) (run_left-Keeps checks run_status t))))

pub link_run_on-Keeps : (run_id : ℕ) (s : Store) → Ensures (Keeps s) (link_run_on run_id s)
unfolding link_run_on append_message
link_run_on-Keeps run_id s =
    Ensures-guard _ _ _ λ _. Ensures-ok _ (Keeps-noted s _ _ refl refl (λ c. c) refl (λ _. refl))

pub attach_resource-Keeps :
    (expected_revision : ℕ) (resource : Resource) (s : Store)
    → Ensures (Keeps s) (attach_resource expected_revision resource s)
unfolding attach_resource bump_context_revision append_message
attach_resource-Keeps expected_revision resource s = Ensures-bind _ _ λ _ _. Ensures-bind _ _ λ _ _.
    Ensures-guard _ _ _ λ live.
      let rev : s.mission.revision ≡ expected_revision = (==_iff _ _).0 live in
      Ensures-ok _ (Keeps-noted s _ _ refl (omega (arith, rev)) (λ c. c) refl (λ _. refl))

pub send_message-Keeps :
    (expected_revision : ℕ) (s : Store) → Ensures (Keeps s) (send_message expected_revision s)
unfolding send_message append_message
send_message-Keeps expected_revision s = Ensures-bind _ _ λ _ _.
    Ensures-guard _ _ _ λ _. Ensures-ok _ (Keeps-noted s _ _ refl refl (λ c. c) refl (λ _. refl))

pub set_tool_permission-Keeps :
    (tool_id : Text) (decision : Permission) (expected : Option ℕ) (s : Store)
    → Ensures (Keeps s) (set_tool_permission tool_id decision expected s)
unfolding set_tool_permission
set_tool_permission-Keeps tool_id decision expected s = Ensures-bind _ _ λ _ _.
    Ensures-guard _ _ _
      λ _. Ensures-bind _ _ λ _ _. Ensures-ok _ (Keeps-quiet s _ refl refl refl (λ c. c))

pub clear_steering-Keeps : (run_id : ℕ) (s : Store) → Keeps s (clear_steering_for_run run_id s)
unfolding clear_steering_for_run without_steering
clear_steering-Keeps run_id s =
    if-Keeps s (without_steering s) (any (is_run run_id) s.runs)
      (Keeps-quiet s (without_steering s) refl refl refl (λ c. c))
