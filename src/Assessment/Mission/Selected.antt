-- ===== src/Assessment/Mission/Selected.antt =====
-- src-tauri/src/assessment/mission.rs: the selection of manual recipes keeps what
-- `Mission/Audit.antt` says.
use rust_forge.Base.{
  ℕ, Bool, true, ◌≡◌, refl, List, [], ◌∷◌, All, Option, none, some, ok, Ensures, Ensures-ok,
  Ensures-err, Ensures-if, Ensures-mono, ◌==◌, Ensures-bind, Ensures-guard, arith,
}
use rust_forge.Text.{Text}
use rust_forge.Assessment.Catalog.{tool}
use rust_forge.Assessment.Catalog.Spec.{ToolSpec, is_manual}
use rust_forge.Assessment.Planner.{PlannedCheck}
use rust_forge.Assessment.Mission.Data.{Mission, Store, Action, is_cleared}
use rust_forge.Assessment.Mission.Control.{Env, append_message}
use rust_forge.Assessment.Mission.Manual.{
  Surface, CoverageGap, Selection, select_plan, select_plans, select_recipe,
  select_manual_plans_for_run, accept, is_row_to_select, make_ready, after_rejection, select_spec,
  selection_noted, selection_audited,
}
use rust_forge.Assessment.Mission.Cleared.{HasConsent, update_actions-HasConsent, cleared}
use rust_forge.Assessment.Mission.Audit.{Keeps, Keeps-quiet, Keeps-noted, two-Keeps}

-- The actions that a selection may change are approved ones.
abbrev SelectsSafely : Selection → Selection → Type 0
SelectsSafely s t = All HasConsent s.actions → All HasConsent t.actions

approved_row :
    (chosen a : Action) → is_row_to_select chosen a ≡ true → is_cleared a.approval_status ≡ true
approved_row chosen a e = ground arith

accept-SelectsSafely :
    (env : Env) (chosen : Option Action) (s : Selection)
    → Ensures (SelectsSafely s) (accept env chosen s)
unfolding accept
accept-SelectsSafely env none s = Ensures-err _
accept-SelectsSafely env (some chosen) s = Ensures-guard _ _ _ λ _. Ensures-ok _ (λ h.
    update_actions-HasConsent (is_row_to_select chosen) (make_ready env.now) s.actions
      (λ a e k. (k.0, cleared _ _ a.approval_status (approved_row chosen a e) k.0, k.2)) h)

module _ (env : Env) (mission : Mission) (allowed : List Text) (surfaces : List Surface) where
  after_rejection-SelectsSafely :
      (plan : PlannedCheck) (action : Option Action) (reason : Option Text) (s : Selection)
      → Ensures (SelectsSafely s) (after_rejection env plan action reason s)
  after_rejection-SelectsSafely plan action (some reason) s = Ensures-ok _ (λ h. h)
  after_rejection-SelectsSafely plan action none s = accept-SelectsSafely env action s

  select_spec-SelectsSafely :
      (spec : Option ToolSpec) (plan : PlannedCheck) (s : Selection)
      → Ensures (SelectsSafely s) (select_spec env mission allowed surfaces spec plan s)
  unfolding select_recipe
  select_spec-SelectsSafely none plan s = Ensures-ok s (λ h. h)
  select_spec-SelectsSafely (some spec) plan s =
      Ensures-if (is_manual spec.execution_kind)
        (select_recipe env mission allowed surfaces spec plan s) (ok s)
        (λ _. after_rejection-SelectsSafely plan _ _ s) (λ _. Ensures-ok s (λ h. h))

  select_plans-SelectsSafely :
      (plans : List PlannedCheck) (s : Selection)
      → Ensures (SelectsSafely s) (select_plans env mission allowed surfaces plans s)
  unfolding select_plans select_plan
  select_plans-SelectsSafely [] s = Ensures-ok s (λ h. h)
  select_plans-SelectsSafely (plan ∷ plans) s = Ensures-bind _ _ λ t selected.
      Ensures-mono
        (λ u rest h.
          rest ((select_spec-SelectsSafely (tool plan.template_id) plan s).at t selected h))
        (select_plans-SelectsSafely plans t)

abbrev pub SelectedFirst : Store → Store × List CoverageGap → Type 0
SelectedFirst s r = Keeps s r.0

selection_noted-Keeps :
    (done : Selection) (s : Store)
    → (All HasConsent s.actions → All HasConsent done.actions)
    → Keeps s (selection_noted done s)
unfolding selection_noted selection_audited append_message
selection_noted-Keeps done s c =
    two-Keeps s (done.accepted == 0)
      (Keeps-quiet s (record s { actions = done.actions }) refl refl refl c)
      (Keeps-noted s (selection_audited done s) _ refl refl c refl (λ _. refl))

pub select_manual_plans-Keeps :
    (env : Env) (run_id : ℕ) (round_is_current : Bool) (surfaces : List Surface)
    (plans : List PlannedCheck) (allowed : Option (List Text)) (s : Store)
    → Ensures
        (SelectedFirst s)
        (select_manual_plans_for_run env run_id round_is_current surfaces plans allowed s)
unfolding select_manual_plans_for_run
select_manual_plans-Keeps env run_id round_is_current surfaces plans allowed s =
    Ensures-bind _ _ λ tools _. Ensures-guard _ _ _ λ _. Ensures-guard _ _ _ λ _.
      Ensures-bind _ _ λ _ _. Ensures-guard _ _ _ λ _. Ensures-bind _ _ λ done selected.
        Ensures-ok _ (
          selection_noted-Keeps done s
            ((select_plans-SelectsSafely env s.mission tools surfaces plans _).at done selected))
