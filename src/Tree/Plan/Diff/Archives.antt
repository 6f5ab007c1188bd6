-- ===== src/Tree/Plan/Diff/Archives.antt =====
-- src-tauri/src/tree/service.rs: what the loops of `compute_diff` archive.
use rust_forge.Base.{
  ℕ, ◌≡◌, refl, sym, ◌∙◌, subst, inl, inr, Bool, true, false, List, [], ◌∷◌, any, any-append, All,
  Option, none, some, Bool-cases, ◌==◌, ==_iff, arith, is_some_and,
}
use rust_forge.Text.{Text}
use rust_forge.Tree.Plan.Data.{
  FlatPlannedNode, TaskNode, Reason, omitted, TaskPlanDiffItem, TaskPlanDiff,
}
use rust_forge.Tree.Plan.Diff.{
  has_id, find_by_key, is_proposed, diff_left_out, omitted_item, diff_current, diff_proposed,
  diff_found, diff_protected, diff_unlocked,
}
use rust_forge.Tree.Plan.Diff.Closed.{Has}

abbrev pub is_item : ℕ → TaskPlanDiffItem → Bool
is_item id item = is_some_and (λ i. i == id) item.node_id

-- The difference archives the node with the id.
abbrev pub is_archived : TaskPlanDiff → ℕ → Bool
is_archived diff id = any (is_item id) diff.archives

left_out_same :
    (proposed kept : Bool) (node : TaskNode) (diff : TaskPlanDiff) (id : ℕ)
    → (kept ≡ false → (node.id == id) ≡ false)
    → is_archived (diff_left_out proposed kept node diff) id ≡ is_archived diff id
left_out_same true kept node diff id h = refl
left_out_same false true node diff id h = refl
left_out_same false false node diff id h =
    ground (arith, any-append (is_item id) diff.archives (omitted_item node omitted ∷ []), h refl)

left_out_keeps :
    (proposed kept : Bool) (node : TaskNode) (diff : TaskPlanDiff) (id : ℕ)
    → is_archived diff id ≡ true
    → is_archived (diff_left_out proposed kept node diff) id ≡ true
left_out_keeps true kept node diff id h = h
left_out_keeps false true node diff id h = h
left_out_keeps false false node diff id h =
    ground (arith, any-append (is_item id) diff.archives (omitted_item node omitted ∷ []), h)

left_out_archives :
    (proposed kept : Bool) (node : TaskNode) (diff : TaskPlanDiff)
    → proposed ≡ false
    → kept ≡ false
    → is_archived (diff_left_out proposed kept node diff) node.id ≡ true
left_out_archives true kept node diff p k = cc
left_out_archives false true node diff p k = cc
left_out_archives false false node diff p k =
    ground (arith, any-append (is_item node.id) diff.archives (omitted_item node omitted ∷ []))

other_id : (set : List ℕ) (a id : ℕ) → Has set id → has_id set a ≡ false → (a == id) ≡ false
other_id set a id h new = elim (Bool-cases (a == id)) [
  | inr e ↦ e
  | inl e ↦
      let seen : Has set a = subst (Has set) (sym ((==_iff a id).0 e)) h in
      absurd (ground (arith, seen, new))
]

-- What the set has is not archived by the loop over the current nodes.
pub seen_kept :
    (keys : List Text) (set : List ℕ) (nodes : List TaskNode) (diff : TaskPlanDiff) (id : ℕ)
    → Has set id
    → is_archived (diff_current keys set nodes diff) id ≡ is_archived diff id
unfolding diff_current
seen_kept keys set [] diff id h = refl
seen_kept keys set (node ∷ nodes) diff id h =
    seen_kept keys set nodes _ id h
    ∙ left_out_same (is_proposed keys node) (has_id set node.id) node diff id
        (other_id set node.id id h)

pub archived_stays :
    (keys : List Text) (set : List ℕ) (nodes : List TaskNode) (diff : TaskPlanDiff) (id : ℕ)
    → is_archived diff id ≡ true
    → is_archived (diff_current keys set nodes diff) id ≡ true
unfolding diff_current
archived_stays keys set [] diff id h = h
archived_stays keys set (node ∷ nodes) diff id h =
    archived_stays keys set nodes _ id
      (left_out_keeps (is_proposed keys node) (has_id set node.id) node diff id h)

-- An omitted node that the set lacks is archived.
abbrev pub LeavesUnseen : List Text → List ℕ → TaskPlanDiff → TaskNode → Type 0
LeavesUnseen keys set diff node =
    is_proposed keys node ≡ false → has_id set node.id ≡ false → is_archived diff node.id ≡ true

pub unseen_archived :
    (keys : List Text) (set : List ℕ) (nodes : List TaskNode) (diff : TaskPlanDiff)
    → All (LeavesUnseen keys set (diff_current keys set nodes diff)) nodes
unfolding diff_current
unseen_archived keys set [] diff = tt
unseen_archived keys set (node ∷ nodes) diff = (
  λ p k.
      archived_stays keys set nodes _ node.id
        (left_out_archives (is_proposed keys node) (has_id set node.id) node diff p k),
  unseen_archived keys set nodes _,
)

unlocked_archives :
    (item : FlatPlannedNode) (node : TaskNode) (changed mutable : List Text) (diff : TaskPlanDiff)
    → (diff_unlocked item node changed mutable diff).archives ≡ diff.archives
unlocked_archives item node [] [] diff = refl
unlocked_archives item node (_ ∷ _) [] diff = refl
unlocked_archives item node changed (_ ∷ _) diff = refl

protected_archives :
    (item : FlatPlannedNode) (node : TaskNode) (changed : List Text) (reason : Option Reason)
    (diff : TaskPlanDiff)
    → (diff_protected item node changed reason diff).archives ≡ diff.archives
protected_archives item node changed (some reason) diff = refl
protected_archives item node changed none diff = unlocked_archives item node changed _ diff

found_archives :
    (current : List TaskNode) (item : FlatPlannedNode) (found : Option TaskNode)
    (diff : TaskPlanDiff)
    → (diff_found current item found diff).archives ≡ diff.archives
found_archives current item none diff = refl
found_archives current item (some node) diff = protected_archives item node _ _ diff

-- The proposed nodes archive nothing.
pub proposed_archives :
    (current : List TaskNode) (flat : List FlatPlannedNode) (diff : TaskPlanDiff)
    → (diff_proposed current flat diff).archives ≡ diff.archives
unfolding diff_proposed
proposed_archives current [] diff = refl
proposed_archives current (item ∷ flat) diff =
    proposed_archives current flat _
    ∙ found_archives current item (find_by_key current item.node.stable_key) diff
