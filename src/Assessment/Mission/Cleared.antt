-- ===== src/Assessment/Mission/Cleared.antt =====
-- src-tauri/src/assessment/mission.rs: the consent that an action needs, and the updates of actions.
use rust_forge.Base.{
  ℕ, Bool, true, false, not, ◌&&◌, ◌||◌, ◌≡◌, refl, List, [], ◌∷◌, any, is_some, All, All-append,
  arith, and-eq-true, Ensures, Ensures-ok, Ensures-guard, if◌then◌else◌, suc,
}
use rust_forge.Text.{Text}
use rust_forge.Assessment.Catalog.Spec.{is_manual}
use rust_forge.Assessment.Mission.Data.{
  Mission, Action, ActionStatus, ApprovalStatus, not_required, is_approved, is_cleared,
  is_open_before_context, is_stoppable, is_queued,
}
use rust_forge.Assessment.Mission.Tools.{
  MissionToolDescriptor, is_ask, requires_approval, planned_action, planned_actions, tool_relevant,
  update_actions, prepare_actions,
}
use rust_forge.Assessment.Mission.Approval.{
  DecideAssessmentActionInput, is_pending_row, decided, decide_ids,
}
use rust_forge.Assessment.Mission.Runs.{
  cancel_action, finish, update_last, is_cleared_for, complete_checks, is_queued_observation,
  is_queued_probe, close_queued, sync_actions_from_run_on,
}

-- The action is a manual recipe, or its tool was to be asked about when it was planned.
abbrev pub needs_consent : Action → Bool
needs_consent a = is_manual a.execution_kind || is_ask a.permission_snapshot

-- The action is open to the planner, at work, with a person, or done.
abbrev pub is_released : ActionStatus → Bool
is_released ActionStatus.queued = true
is_released ActionStatus.executing = true
is_released ActionStatus.completed = true
is_released ActionStatus.manual_ready = true
is_released ActionStatus.manual_result_pending = true
is_released ActionStatus.skipped = true
is_released _ = false

abbrev pub is_waived : ApprovalStatus → Bool
is_waived not_required = true
is_waived _ = false

-- No action that needs consent is released without an approval or has its approval waived, and an
-- action that was handed to a person is approved.
abbrev pub HasConsent : Action → Type 0
HasConsent a =
    ((needs_consent a && is_waived a.approval_status) ≡ false)
    × ((needs_consent a && is_released a.status && not (is_approved a.approval_status)) ≡ false)
    × ((is_some a.handoff && not (is_approved a.approval_status)) ≡ false)

-- A queued action may be moved to any status, and so may one that is cleared.
queued_is_released : (status : ActionStatus) → is_queued status ≡ true → is_released status ≡ true
queued_is_released status e = ground arith

unheld :
    (needs next : Bool) (status : ActionStatus) (verdict : ApprovalStatus)
    → is_queued status ≡ true
    → ((needs && is_released status && not (is_approved verdict)) ≡ false)
    → ((needs && next && not (is_approved verdict)) ≡ false)
unheld needs next status verdict e h = ground (arith, queued_is_released status e)

pub cleared :
    (needs next : Bool) (verdict : ApprovalStatus)
    → is_cleared verdict ≡ true
    → ((needs && is_waived verdict) ≡ false)
    → ((needs && next && not (is_approved verdict)) ≡ false)
cleared needs next verdict e h = ground arith

if-HasConsent :
    (t : Bool) (a b : Action)
    → (t ≡ true → HasConsent a)
    → HasConsent b
    → HasConsent (if t then a else b)
if-HasConsent true a b ha hb = ha refl
if-HasConsent false a b ha hb = hb

if-All :
    (t : Bool) (xs ys : List Action)
    → (t ≡ true → All HasConsent xs)
    → All HasConsent ys
    → All HasConsent (if t then xs else ys)
if-All true xs ys ha hb = ha refl
if-All false xs ys ha hb = hb

pub update_actions-HasConsent :
    (p : Action → Bool) (f : Action → Action) (actions : List Action)
    → ((a : Action) → p a ≡ true → HasConsent a → HasConsent (f a))
    → All HasConsent actions
    → All HasConsent (update_actions p f actions)
unfolding update_actions
update_actions-HasConsent p f [] keep h = tt
update_actions-HasConsent p f (a ∷ actions) keep h = (
  if-HasConsent (p a) (f a) a (λ e. keep a e h.0) h.0,
  update_actions-HasConsent p f actions keep h.1,
)

update_last-HasConsent :
    (p : Action → Bool) (f : Action → Action) (actions : List Action)
    → ((a : Action) → p a ≡ true → HasConsent a → HasConsent (f a))
    → All HasConsent actions
    → All HasConsent (update_last p f actions)
unfolding update_last
update_last-HasConsent p f [] keep h = tt
update_last-HasConsent p f (a ∷ actions) keep h =
    if-All (p a && not (any p actions)) (f a ∷ actions) (a ∷ update_last p f actions)
      (λ e. (keep a (and-eq-true _ _ e).0 h.0, h.1))
      (h.0, update_last-HasConsent p f actions keep h.1)

planned_action-HasConsent :
    (mission : Mission) (hash : Text) (id : ℕ) (d : MissionToolDescriptor)
    → HasConsent (planned_action mission hash id d)
unfolding planned_action requires_approval
planned_action-HasConsent mission hash id d = ground arith

planned_actions-HasConsent :
    (mission : Mission) (hash : Text) (id : ℕ) (tools : List MissionToolDescriptor)
    → All HasConsent (planned_actions mission hash id tools)
unfolding planned_actions
planned_actions-HasConsent mission hash id [] = tt
planned_actions-HasConsent mission hash id (d ∷ tools) =
    if-All (tool_relevant mission d) _ _
      (λ _. (
        planned_action-HasConsent mission hash id d,
        planned_actions-HasConsent mission hash (suc id) tools,
      ))
      (planned_actions-HasConsent mission hash id tools)

cancel_action-HasConsent :
    (now : Text) (a : Action) → HasConsent a → HasConsent (cancel_action now a)
unfolding cancel_action
cancel_action-HasConsent now a h = ground (arith, h)

module _ (now : Text) where
  pub prepare_actions-HasConsent :
      (next_id : ℕ) (mission : Mission) (tools : List MissionToolDescriptor) (hash : Text)
      (actions : List Action)
      → All HasConsent actions
      → All HasConsent (prepare_actions now next_id mission tools hash actions)
  unfolding prepare_actions
  prepare_actions-HasConsent next_id mission tools hash actions h =
      All-append HasConsent _ _
        (update_actions-HasConsent (λ (a : Action). is_open_before_context a.status) _ actions
          (λ a _ k. ground (arith, k)) h)
        (planned_actions-HasConsent mission hash next_id tools)

  pub stop-HasConsent :
      (actions : List Action)
      → All HasConsent actions
      → All HasConsent
          (update_actions (λ (a : Action). is_stoppable a.status) (cancel_action now) actions)
  stop-HasConsent actions h =
      update_actions-HasConsent _ _ actions (λ a _ k. cancel_action-HasConsent now a k) h

  pub decide_ids-HasConsent :
      (input : DecideAssessmentActionInput) (ids : List ℕ) (actions : List Action)
      → All HasConsent actions
      → Ensures (All HasConsent) (decide_ids now input ids actions)
  unfolding decide_ids decided
  decide_ids-HasConsent input [] actions h = Ensures-ok actions h
  decide_ids-HasConsent input (id ∷ ids) actions h = Ensures-guard _ _ _ λ _.
      decide_ids-HasConsent input ids _ (
        update_actions-HasConsent (is_pending_row id) (decided now input) actions
          (λ a e k. ground (arith, k)) h)

  -- Ending an action that is cleared, or that is queued, keeps its consent.
  finish_cleared :
      (a : Action) (tool_id : Text)
      → is_cleared_for tool_id a ≡ true
      → HasConsent a
      → HasConsent (finish ActionStatus.completed now a)
  finish_cleared a tool_id e k = (k.0, cleared _ _ a.approval_status (and-eq-true _ _ e).1 k.0, k.2)

  complete_checks-HasConsent :
      (checks : List Text) (actions : List Action)
      → All HasConsent actions
      → All HasConsent (complete_checks now checks actions)
  unfolding complete_checks
  complete_checks-HasConsent [] actions h = h
  complete_checks-HasConsent (tool_id ∷ checks) actions h = complete_checks-HasConsent checks _ (
      update_last-HasConsent (is_cleared_for tool_id) (finish ActionStatus.completed now) actions
        (λ a e k. finish_cleared a tool_id e k) h)

  close_queued-HasConsent :
      (run_completed : Bool) (actions : List Action)
      → All HasConsent actions
      → All HasConsent (close_queued now run_completed actions)
  unfolding close_queued
  close_queued-HasConsent true actions h =
      update_actions-HasConsent is_queued_probe _ _
        (λ a e k. (k.0, unheld _ _ a.status _ (and-eq-true _ _ e).0 k.1, k.2))
        (update_actions-HasConsent is_queued_observation _ actions
          (λ a e k. (k.0, unheld _ _ a.status _ (and-eq-true _ _ e).1 k.1, k.2)) h)
  close_queued-HasConsent false actions h =
      update_actions-HasConsent _ _ actions (λ a e k. (k.0, ground arith, k.2)) h

  pub sync_actions-HasConsent :
      (checks : List Text) (run_completed : Bool) (actions : List Action)
      → All HasConsent actions
      → All HasConsent (sync_actions_from_run_on now checks run_completed actions)
  unfolding sync_actions_from_run_on
  sync_actions-HasConsent checks run_completed actions h =
      close_queued-HasConsent run_completed _ (complete_checks-HasConsent checks actions h)
