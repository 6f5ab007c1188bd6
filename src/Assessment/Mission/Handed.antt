-- ===== src/Assessment/Mission/Handed.antt =====
-- src-tauri/src/assessment/mission.rs: handoffs and the consent that an action needs.
use rust_forge.Base.{
  ℕ, ◌≡◌, refl, Bool, true, false, not, ◌&&◌, Option, none, some, is_some, is_some_and, ◌==◌,
  Ensures, Ensures-ok, Ensures-bind, Ensures-guard, arith,
}
use rust_forge.Assessment.Mission.Data.{Store, Action, Handoff, is_approved}
use rust_forge.Assessment.Mission.Handoffs.{
  HandoffWorld, is_ready_to_hand_off, is_row_to_hand_off, handed_off, insert_handoff,
  create_handoff, has_handoff, linked, result_pending, link_handoff_replay,
}
use rust_forge.Assessment.Mission.Cleared.{HasConsent, update_actions-HasConsent}
use rust_forge.Assessment.Mission.Audit.{Keeps, Keeps-refl, Keeps-quiet}

module _ (world : HandoffWorld) where
  handed_off-HasConsent :
      (action_id expected_revision session_id : ℕ) (a : Action)
      → is_row_to_hand_off action_id expected_revision a ≡ true
      → HasConsent a
      → HasConsent (handed_off world session_id a)
  unfolding is_ready_to_hand_off
  handed_off-HasConsent action_id expected_revision session_id a e k = (k.0, k.1, ground (arith, e))

  insert_handoff-Keeps :
      (action_id expected_revision : ℕ) (existing : Option Handoff) (s : Store)
      → Ensures (Keeps s) (insert_handoff world action_id expected_revision existing s)
  unfolding insert_handoff
  insert_handoff-Keeps action_id expected_revision (some existing) s = Ensures-ok s (Keeps-refl s)
  insert_handoff-Keeps action_id expected_revision none s = Ensures-bind _ _ λ session_id _.
      Ensures-ok _ (
        Keeps-quiet s _ refl refl refl (
          update_actions-HasConsent (is_row_to_hand_off action_id expected_revision)
            (handed_off world session_id) s.actions
            (handed_off-HasConsent action_id expected_revision session_id)))

  pub create_handoff-Keeps :
      (action_id expected_revision : ℕ) (s : Store)
      → Ensures (Keeps s) (create_handoff world action_id expected_revision s)
  unfolding create_handoff
  create_handoff-Keeps action_id expected_revision s = Ensures-guard _ _ _ λ _.
      Ensures-bind _ _ λ action _.
        Ensures-guard _ _ _ λ _. insert_handoff-Keeps action_id expected_revision action.handoff s

  -- An action with a handoff is approved, so its result may be pending.
  handed :
      (test : Handoff → Bool) (handoff : Option Handoff) (approved : Bool)
      → is_some_and test handoff ≡ true
      → (is_some handoff && not approved) ≡ false
      → approved ≡ true
  handed test none approved e k = cc
  handed test (some h) approved e k = ground arith

  linked-is_some :
      (session_id replay_run_id evidence_id : ℕ) (handoff : Option Handoff)
      → is_some (linked session_id replay_run_id evidence_id handoff) ≡ is_some handoff
  linked-is_some session_id replay_run_id evidence_id none = refl
  linked-is_some session_id replay_run_id evidence_id (some h) = refl

  result_pending-HasConsent :
      (handoff_id session_id replay_run_id evidence_id : ℕ) (a : Action)
      → has_handoff handoff_id a ≡ true
      → HasConsent a
      → HasConsent (result_pending world session_id replay_run_id evidence_id a)
  result_pending-HasConsent handoff_id session_id replay_run_id evidence_id a e k =
      let consent =
        handed (λ (h : Handoff). h.id == handoff_id) a.handoff (is_approved a.approval_status) e
          k.2 in
      (
        k.0,
        ground (arith, consent),
        rw (linked-is_some session_id replay_run_id evidence_id a.handoff) k.2,
      )

  pub link_handoff_replay-Keeps :
      (handoff_id replay_run_id : ℕ) (s : Store)
      → Ensures (Keeps s) (link_handoff_replay world handoff_id replay_run_id s)
  unfolding link_handoff_replay
  link_handoff_replay-Keeps handoff_id replay_run_id s = Ensures-bind _ _ λ handoff _.
      Ensures-guard _ _ _ λ _. Ensures-bind _ _ λ session_id _. Ensures-bind _ _ λ evidence_id _.
        Ensures-ok _ (
          Keeps-quiet s _ refl refl refl (
            update_actions-HasConsent (has_handoff handoff_id)
              (result_pending world session_id replay_run_id evidence_id) s.actions
              (result_pending-HasConsent handoff_id session_id replay_run_id evidence_id)))
