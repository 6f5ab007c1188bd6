-- ===== src/Tree/Plan/Diff/Allowed.antt =====
-- src-tauri/src/tree/service.rs: what `compute_diff` may update, and what it may archive.
use rust_forge.Base.{
  ℕ, ◌≡◌, refl, sym, ◌∙◌, subst, inl, inr, Bool, true, false, List, [], ◌∷◌, All, All-append,
  Option, none, some, Bool-cases,
}
use rust_forge.Text.{Text, one_of}
use rust_forge.Tree.Plan.Data.{
  PlannedForest, FlatPlannedNode, flatten_plan, TaskNode, Reason, TaskPlanDiffItem, TaskPlanDiff,
}
use rust_forge.Tree.Plan.Diff.{
  find_by_key, protected_reason, without, diff_item, diff_unlocked, diff_protected, diff_found,
  diff_proposed, is_proposed, has_id, diff_left_out, diff_current, compute_diff,
}

-- An update is of a current node that no person has worked on, in fields that are not locked, and
-- in one at least.
pub record IsAllowed (current : List TaskNode) (item : TaskPlanDiffItem) : Type 0 where
  pub node : TaskNode
  pub found : find_by_key current item.stable_key ≡ some node
  pub same_id : item.node_id ≡ some node.id
  pub unprotected : protected_reason node ≡ none
  pub unlocked : All (λ field. one_of node.locked_fields field ≡ false) item.changed_fields

without-unlocked :
    (locked fields : List Text) → All (λ field. one_of locked field ≡ false) (without locked fields)
unfolding without
without-unlocked locked [] = tt
without-unlocked locked (f ∷ fields) = elim (Bool-cases (one_of locked f)) [
  | inl held ↦ rw held (without-unlocked locked fields)
  | inr open_field ↦ rw open_field (open_field, without-unlocked locked fields)
]

abbrev UpdatesAllowed : List TaskNode → TaskPlanDiff → Type 0
UpdatesAllowed current diff = All (IsAllowed current) diff.updates

module _ (current : List TaskNode) (item : FlatPlannedNode) where
  unlocked-Allowed :
      (node : TaskNode) (changed mutable : List Text) (diff : TaskPlanDiff)
      → find_by_key current item.node.stable_key ≡ some node
      → protected_reason node ≡ none
      → All (λ field. one_of node.locked_fields field ≡ false) mutable
      → UpdatesAllowed current diff
      → UpdatesAllowed current (diff_unlocked item node changed mutable diff)
  unfolding diff_item
  unlocked-Allowed node [] [] diff found free fields h = h
  unlocked-Allowed node (_ ∷ _) [] diff found free fields h = h
  unlocked-Allowed node changed (f ∷ mutable) diff found free fields h =
      All-append (IsAllowed current) diff.updates _ h (
        record {
          node = node;
          found = found;
          same_id = refl;
          unprotected = free;
          unlocked = fields;
        },
        tt,
      )

  protected-Allowed :
      (node : TaskNode) (changed : List Text) (reason : Option Reason) (diff : TaskPlanDiff)
      → find_by_key current item.node.stable_key ≡ some node
      → protected_reason node ≡ reason
      → UpdatesAllowed current diff
      → UpdatesAllowed current (diff_protected item node changed reason diff)
  protected-Allowed node changed (some reason) diff found why h = h
  protected-Allowed node changed none diff found why h =
      unlocked-Allowed node changed (without node.locked_fields changed) diff found why
        (without-unlocked node.locked_fields changed) h

  found-Allowed :
      (found : Option TaskNode) (diff : TaskPlanDiff)
      → find_by_key current item.node.stable_key ≡ found
      → UpdatesAllowed current diff
      → UpdatesAllowed current (diff_found current item found diff)
  found-Allowed none diff e h = h
  found-Allowed (some node) diff e h = protected-Allowed node _ _ diff e refl h

proposed-Allowed :
    (current : List TaskNode) (flat : List FlatPlannedNode) (diff : TaskPlanDiff)
    → UpdatesAllowed current diff
    → UpdatesAllowed current (diff_proposed current flat diff)
unfolding diff_proposed
proposed-Allowed current [] diff h = h
proposed-Allowed current (item ∷ flat) diff h =
    proposed-Allowed current flat _ (found-Allowed current item _ diff refl h)

left_out_updates :
    (proposed kept : Bool) (node : TaskNode) (diff : TaskPlanDiff)
    → (diff_left_out proposed kept node diff).updates ≡ diff.updates
left_out_updates true kept node diff = refl
left_out_updates false true node diff = refl
left_out_updates false false node diff = refl

current_updates :
    (keys : List Text) (set : List ℕ) (nodes : List TaskNode) (diff : TaskPlanDiff)
    → (diff_current keys set nodes diff).updates ≡ diff.updates
unfolding diff_current
current_updates keys set [] diff = refl
current_updates keys set (node ∷ nodes) diff =
    current_updates keys set nodes _
    ∙ left_out_updates (is_proposed keys node) (has_id set node.id) node diff

-- Every update that a proposal makes is of a current node with the key of the item, which is not
-- protected (it is not written by a person, has no evidence and has not been started), and of
-- fields that are not locked.
pub updates_are-IsAllowed :
    (current : List TaskNode) (proposed : PlannedForest)
    → All (IsAllowed current) (compute_diff current proposed).updates
unfolding compute_diff
updates_are-IsAllowed current proposed =
    subst (All (IsAllowed current)) (sym (current_updates _ _ current _))
      (proposed-Allowed current (flatten_plan proposed) _ tt)
