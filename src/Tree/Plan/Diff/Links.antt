-- ===== src/Tree/Plan/Diff/Links.antt =====
-- src-tauri/src/tree/service.rs: `compute_diff` archives no node that a node which stays refers to.
use rust_forge.Base.{
  ℕ, ◌+◌, ◌≡◌, sym, ◌∙◌, ap, subst, ◌⊎◌, inl, inr, Bool, true, false, ◌||◌, List, [], ◌∷◌, ◌++◌,
  any, is_some, length, All, some, Bool-cases, if◌then◌else◌, ◌==◌, ==_iff, arith,
}
use rust_forge.Text.{Text, codes, one_of}
use rust_forge.Tree.Plan.Data.{PlannedForest, FlatPlannedNode, flatten_plan, TaskNode, TaskPlanDiff}
use rust_forge.Tree.Plan.Diff.{
  has_id, extend, links_of, links_of_all, close, all_links, find_by_id, seeds, seeds_of,
  preserved_omitted, is_proposed, protected_reason, as_list, diff_current, diff_proposed,
  no_changes, proposed_keys_of, compute_diff,
}
use rust_forge.Tree.Plan.Diff.Closed.{
  Has, Has-left, Has-right, extend-keeps, extend-Has, IsClosed, close-keeps, closes, All-Has, own,
}
use rust_forge.Tree.Plan.Diff.Archives.{
  is_item, is_archived, LeavesUnseen, seen_kept, unseen_archived, proposed_archives,
}

seeds-keeps :
    (keys : List Text) (nodes : List TaskNode) (set : List ℕ) (i : ℕ)
    → Has set i
    → Has (seeds keys nodes set) i
unfolding seeds
seeds-keeps keys [] set i h = h
seeds-keeps keys (node ∷ nodes) set i h =
    seeds-keeps keys nodes (extend (seeds_of keys node) set) i
      (extend-keeps (seeds_of keys node) set i h)

-- The set has the seeds of every node.
seeds-Has :
    (keys : List Text) (nodes : List TaskNode) (set : List ℕ)
    → All (λ node. All (Has (seeds keys nodes set)) (seeds_of keys node)) nodes
unfolding seeds
seeds-Has keys [] set = tt
seeds-Has keys (node ∷ nodes) set =
    let next = extend (seeds_of keys node) set in
    (
      All-Has next (seeds keys nodes next) (seeds_of keys node) (seeds-keeps keys nodes next)
          (extend-Has (seeds_of keys node) set),
      seeds-Has keys nodes next,
    )

-- A link of a node stays: the proposal leaves the node out and does not archive it, or it proposes the
-- node, which is protected or has the field of the link locked.
abbrev pub Holds : List Text → TaskPlanDiff → TaskNode → (field : Text) → Type 0
Holds keys diff node field =
    ((is_proposed keys node ≡ false) × (is_archived diff node.id ≡ false))
    ⊎ ((is_proposed keys node ≡ true)
        × ((is_some (protected_reason node) ≡ true) ⊎ (one_of node.locked_fields field ≡ true)))

abbrev pub AllKept : TaskPlanDiff → List ℕ → Type 0
AllKept diff ids = All (λ id. is_archived diff id ≡ false) ids

-- The ids of the nodes are different, as the keys of a table are.
abbrev pub HasOwnId : List TaskNode → TaskNode → Type 0
HasOwnId current node = find_by_id current node.id ≡ some node

abbrev pub KeepsLinks : List Text → TaskPlanDiff → TaskNode → Type 0
KeepsLinks keys diff node =
    (Holds keys diff node (codes "parent") → AllKept diff (as_list node.parent_id))
    × (Holds keys diff node (codes "prerequisites") → AllKept diff node.prerequisite_ids)

snapshot-Has :
    (current : List TaskNode) (snapshot : List ℕ) (id : ℕ)
    → Has snapshot id
    → (i : ℕ) → Has (links_of (find_by_id current id)) i
    → Has (links_of_all current snapshot) i
unfolding links_of_all
snapshot-Has current [] id h i l = cc
snapshot-Has current (s ∷ snapshot) id h i l = elim (Bool-cases (s == id)) [
  | inl same ↦
      Has-left (links_of (find_by_id current s)) (links_of_all current snapshot) i
        (subst (λ x. Has (links_of (find_by_id current x)) i) (sym ((==_iff s id).0 same)) l)
  | inr other ↦
      Has-right (links_of (find_by_id current s)) (links_of_all current snapshot) i
        (snapshot-Has current snapshot id (ground arith) i l)
]

at-Has : (set xs : List ℕ) → All (Has set) xs → (i : ℕ) → Has xs i → Has set i
at-Has set [] h i m = cc
at-Has set (x ∷ xs) h i m = elim (Bool-cases (x == i)) [
  | inl same ↦ subst (Has set) ((==_iff x i).0 same) h.0
  | inr other ↦ at-Has set xs h.1 i (ground arith)
]

All-ids : {P Q : ℕ → Type 0} (ids : List ℕ) → ((i : ℕ) → P i → Q i) → All P ids → All Q ids
All-ids [] f h = tt
All-ids (i ∷ ids) f h = (f i h.0, All-ids ids f h.1)

All-left : (P : ℕ → Type 0) (xs ys : List ℕ) → All P (xs ++ ys) → All P xs
All-left P [] ys h = tt
All-left P (x ∷ xs) ys h = (h.0, All-left P xs ys h.1)

All-right : (P : ℕ → Type 0) (xs ys : List ℕ) → All P (xs ++ ys) → All P ys
All-right P [] ys h = h
All-right P (x ∷ xs) ys h = All-right P xs ys h.1

either : (a b : Bool) → (a ≡ true) ⊎ (b ≡ true) → (a || b) ≡ true
either a b h = ground arith

-- The seeds of a proposed node have the links that stay.
module _ (P : ℕ → Type 0) (keys : List Text) (node : TaskNode)
    (proposed : is_proposed keys node ≡ true) where
  seeded-parent :
      (is_some (protected_reason node) ≡ true) ⊎ (one_of node.locked_fields (codes "parent") ≡ true)
      → All P (seeds_of keys node)
      → All P (as_list node.parent_id)
  unfolding seeds_of
  seeded-parent stays h =
      let held = either _ _ stays in
      let both = rw (proposed, held) at h in All-left P (as_list node.parent_id) _ both

  seeded-prerequisites :
      (is_some (protected_reason node) ≡ true)
        ⊎ (one_of node.locked_fields (codes "prerequisites") ≡ true)
      → All P (seeds_of keys node)
      → All P node.prerequisite_ids
  unfolding seeds_of
  seeded-prerequisites stays h =
      let held = either _ _ stays in
      let both = rw (proposed, held) at h in
      All-right P
        (if is_some (protected_reason node) || one_of node.locked_fields (codes "parent")
          then as_list node.parent_id
          else [])
        _ both

module _ (current : List TaskNode) (keys : List Text) (set : List ℕ) (diff : TaskPlanDiff)
    (closed : IsClosed current set) (kept : (i : ℕ) → Has set i → is_archived diff i ≡ false) where
  omitted_keeps :
      (node : TaskNode)
      → HasOwnId current node
      → Has set node.id
      → All (λ id. is_archived diff id ≡ false) (links_of (some node))
  omitted_keeps node itself seen =
      All-ids (links_of (some node))
        (λ i linked. kept i (
          at-Has set (links_of_all current set) closed i (
            snapshot-Has current set node.id seen i
              (subst (λ found. Has (links_of found) i) (sym itself) linked))))
        (own (links_of (some node)))

  seen_of :
      (node : TaskNode)
      → is_proposed keys node ≡ false
      → is_archived diff node.id ≡ false
      → LeavesUnseen keys set diff node
      → Has set node.id
  seen_of node left stays leaves = elim (Bool-cases (has_id set node.id)) [
    | inl seen ↦ seen
    | inr new ↦ absurd (ground (arith, leaves left new, stays))
  ]

  node_keeps :
      (node : TaskNode)
      → HasOwnId current node
      → All (Has set) (seeds_of keys node)
      → LeavesUnseen keys set diff node
      → KeepsLinks keys diff node
  node_keeps node itself seeded leaves =
      let links : is_proposed keys node ≡ false
          → is_archived diff node.id ≡ false
          → AllKept diff (links_of (some node)) =
        λ left stays. omitted_keeps node itself (seen_of node left stays leaves) in
      (
        λ holds. elim holds [
          | inl (left, stays) ↦ All-left _ (as_list node.parent_id) _ (links left stays)
          | inr (proposed, why) ↦
              All-ids _ kept (seeded-parent (Has set) keys node proposed why seeded)
        ],
        λ holds. elim holds [
          | inl (left, stays) ↦ All-right _ (as_list node.parent_id) _ (links left stays)
          | inr (proposed, why) ↦
              All-ids _ kept (seeded-prerequisites (Has set) keys node proposed why seeded)
        ],
      )

  All-keep :
      (nodes : List TaskNode)
      → All (HasOwnId current) nodes
      → All (λ node. All (Has set) (seeds_of keys node)) nodes
      → All (LeavesUnseen keys set diff) nodes
      → All (KeepsLinks keys diff) nodes
  All-keep [] itself seeded leaves = tt
  All-keep (node ∷ nodes) itself seeded leaves =
      (node_keeps node itself.0 seeded.0 leaves.0, All-keep nodes itself.1 seeded.1 leaves.1)

All-seeds :
    (keys : List Text) (first set : List ℕ)
    → ((i : ℕ) → Has first i → Has set i)
    → (nodes : List TaskNode) → All (λ node. All (Has first) (seeds_of keys node)) nodes
    → All (λ node. All (Has set) (seeds_of keys node)) nodes
All-seeds keys first set f [] h = tt
All-seeds keys first set f (node ∷ nodes) h =
    (All-ids (seeds_of keys node) f h.0, All-seeds keys first set f nodes h.1)

start_keeps :
    (current : List TaskNode) (keys : List Text) (flat : List FlatPlannedNode) (set : List ℕ)
    (i : ℕ)
    → Has set i
    → is_archived (diff_current keys set current (diff_proposed current flat no_changes)) i ≡ false
start_keeps current keys flat set i h =
    seen_kept keys set current _ i h
    ∙ ap (any (is_item i)) (proposed_archives current flat no_changes)

-- When the current nodes have different ids, the proposal archives neither the parent nor a
-- prerequisite of a node that it leaves out and does not archive, nor those of a node that it proposes
-- where that node is protected, nor the parent, or a prerequisite, where that field of a proposed node
-- is locked.
pub archives_keep_links :
    (current : List TaskNode) (proposed : PlannedForest)
    → All (HasOwnId current) current
    → All (KeepsLinks (proposed_keys_of proposed) (compute_diff current proposed)) current
unfolding compute_diff preserved_omitted
archives_keep_links current proposed itself =
    let keys = proposed_keys_of proposed in
    let first = seeds keys current [] in
    let fuel = length (all_links current) + 1 in
    let set = close fuel current first in
    All-keep current keys set (compute_diff current proposed) (closes current first)
      (start_keeps current keys (flatten_plan proposed) set) current itself
      (All-seeds keys first set (close-keeps fuel current first) current
        (seeds-Has keys current []))
      (unseen_archived keys set current _)
