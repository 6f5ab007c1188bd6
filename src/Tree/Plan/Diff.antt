-- ===== src/Tree/Plan/Diff.antt =====
-- src-tauri/src/tree/service.rs: `compute_diff`, what a proposal would change of the current nodes.
-- A hash set of ids is a list without repetitions; a hash map keeps the later of two nodes.
pub mod Closed
pub mod Allowed
pub mod Archives
pub mod Links
use rust_forge.Base.{
  ℕ, zero, suc, ◌+◌, Bool, true, false, not, ◌&&◌, ◌||◌, List, [], ◌∷◌, ◌++◌, map, any, length,
  Option, none, some, is_some, if◌then◌else◌, ◌==◌, leb,
}
use rust_forge.Text.{Text, codes, text_eq, one_of, sort_texts}
use rust_forge.Tree.Plan.Data.{
  PlannedForest, PlannedNode, FlatPlannedNode, flatten_plan, TaskNode, has_evidence, Reason, added,
  unlocked_fields, unchanged, only_locked, manual_node, linked_evidence, human_progress,
  needed_by_protected, omitted, TaskPlanDiffItem, TaskPlanDiff,
}

abbrev pub or_this : Option TaskNode → Bool → TaskNode → Option TaskNode
or_this (some later) test node = some later
or_this none test node = if test then some node else none

-- `current_by_key.get(key)`
unfoldable pub find_by_key : List TaskNode → Text → Option TaskNode
find_by_key [] key = none
find_by_key (node ∷ nodes) key = or_this (find_by_key nodes key) (text_eq node.stable_key key) node

-- `current_by_id.get(&id)`
unfoldable pub find_by_id : List TaskNode → ℕ → Option TaskNode
find_by_id [] id = none
find_by_id (node ∷ nodes) id = or_this (find_by_id nodes id) (node.id == id) node

unfoldable pub protected_reason : TaskNode → Option Reason
protected_reason node =
    if text_eq node.source (codes "manual")
    then some manual_node
    else if has_evidence node
    then some linked_evidence
    else if not (text_eq node.status (codes "todo"))
    then some human_progress
    else none

abbrev pub texts_eq : List Text → List Text → Bool
texts_eq [] [] = true
texts_eq [] (_ ∷ _) = false
texts_eq (_ ∷ _) [] = false
texts_eq (s ∷ ss) (t ∷ ts) = text_eq s t && texts_eq ss ts

abbrev pub ids_eq : List ℕ → List ℕ → Bool
ids_eq [] [] = true
ids_eq [] (_ ∷ _) = false
ids_eq (_ ∷ _) [] = false
ids_eq (a ∷ as_left) (b ∷ bs) = a == b && ids_eq as_left bs

abbrev pub keys_eq : Option Text → Option Text → Bool
keys_eq none none = true
keys_eq none (some _) = false
keys_eq (some _) none = false
keys_eq (some s) (some t) = text_eq s t

unfoldable pub insert_id : ℕ → List ℕ → List ℕ
insert_id id [] = id ∷ []
insert_id id (i ∷ ids) = let rest = insert_id id ids in if leb id i then id ∷ i ∷ ids else i ∷ rest

-- `findings.sort_unstable()`
unfoldable pub sort_ids : List ℕ → List ℕ
sort_ids [] = []
sort_ids (id ∷ ids) = insert_id id (sort_ids ids)

abbrev pub key_of : Option TaskNode → Option Text
key_of none = none
key_of (some node) = some node.stable_key

-- `current.parent_id.and_then(…).map(…)`
abbrev pub parent_key_of : List TaskNode → Option ℕ → Option Text
parent_key_of current none = none
parent_key_of current (some id) = key_of (find_by_id current id)

abbrev pub cons_key : Option TaskNode → List Text → List Text
cons_key none keys = keys
cons_key (some node) keys = node.stable_key ∷ keys

unfoldable pub keys_of_ids : List TaskNode → List ℕ → List Text
keys_of_ids current [] = []
keys_of_ids current (id ∷ ids) = cons_key (find_by_id current id) (keys_of_ids current ids)

-- The calls of `compare`: each field, with whether its two sides are equal.
unfoldable pub compared : List TaskNode → TaskNode → FlatPlannedNode → List (Text × Bool)
compared current old new =
    (codes "parent", keys_eq (parent_key_of current old.parent_id) new.parent_key)
    ∷ (codes "node_type", text_eq old.node_type new.node.node_type)
    ∷ (codes "title", text_eq old.title new.node.title)
    ∷ (codes "description", text_eq old.description new.node.description)
    ∷ (codes "why", text_eq old.why new.node.why)
    ∷ (codes "how_to", text_eq old.how_to new.node.how_to)
    ∷ (codes "verify_criteria", text_eq old.verify_criteria new.node.verify_criteria)
    ∷ (codes "priority", old.priority == new.node.priority)
    ∷ (codes "required_role", text_eq old.required_role new.node.required_role)
    ∷ (codes "required_session", text_eq old.required_session new.node.required_session)
    ∷ (codes "expected_observation", text_eq old.expected_observation new.node.expected_observation)
    ∷ (codes "standard_references", texts_eq old.standard_references new.node.standard_references)
    ∷ (codes "findings", ids_eq (sort_ids old.finding_ids) new.node.finding_ids)
    ∷ (
      codes "prerequisites",
      texts_eq (sort_texts (keys_of_ids current old.prerequisite_ids)) new.node.prerequisite_keys,
    )
    ∷ (codes "sort_order", old.sort_order == new.sort_order)
    ∷ []

-- `compare`, for one field after the other.
unfoldable pub changed_of : List (Text × Bool) → List Text
changed_of [] = []
changed_of (field ∷ fields) =
    let rest = changed_of fields in if field.1 then rest else field.0 ∷ rest

unfoldable pub changed_fields : List TaskNode → TaskNode → FlatPlannedNode → List Text
changed_fields current old new = changed_of (compared current old new)

unfoldable pub without : List Text → List Text → List Text
without locked [] = []
without locked (field ∷ fields) =
    let rest = without locked fields in if one_of locked field then rest else field ∷ rest

unfoldable pub diff_item : FlatPlannedNode → Option ℕ → List Text → Reason → TaskPlanDiffItem
diff_item item node_id changed reason = record {
  stable_key = item.node.stable_key;
  node_id = node_id;
  title = item.node.title;
  changed_fields = changed;
  reason = reason;
}

abbrev pub add : TaskPlanDiffItem → TaskPlanDiff → TaskPlanDiff
add item diff = record diff { additions = diff.additions ++ item ∷ [] }

abbrev pub update : TaskPlanDiffItem → TaskPlanDiff → TaskPlanDiff
update item diff = record diff { updates = diff.updates ++ item ∷ [] }

abbrev pub preserve : TaskPlanDiffItem → TaskPlanDiff → TaskPlanDiff
preserve item diff = record diff { preserved = diff.preserved ++ item ∷ [] }

abbrev pub archive : TaskPlanDiffItem → TaskPlanDiff → TaskPlanDiff
archive item diff = record diff { archives = diff.archives ++ item ∷ [] }

-- A node that is not protected.
abbrev pub diff_unlocked :
    FlatPlannedNode → TaskNode → (changed mutable : List Text) → TaskPlanDiff → TaskPlanDiff
diff_unlocked item node [] [] diff = preserve (diff_item item (some node.id) [] unchanged) diff
diff_unlocked item node (f ∷ changed) [] diff =
    preserve (diff_item item (some node.id) (f ∷ changed) only_locked) diff
diff_unlocked item node changed (f ∷ mutable) diff =
    update (diff_item item (some node.id) (f ∷ mutable) unlocked_fields) diff

abbrev pub diff_protected :
    FlatPlannedNode → TaskNode → List Text → Option Reason → TaskPlanDiff → TaskPlanDiff
diff_protected item node changed (some reason) diff =
    preserve (diff_item item (some node.id) changed reason) diff
diff_protected item node changed none diff =
    diff_unlocked item node changed (without node.locked_fields changed) diff

abbrev pub diff_found :
    List TaskNode → FlatPlannedNode → Option TaskNode → TaskPlanDiff → TaskPlanDiff
diff_found current item none diff = add (diff_item item none [] added) diff
diff_found current item (some node) diff =
    diff_protected item node (changed_fields current node item) (protected_reason node) diff

-- The loop over the proposed nodes.
unfoldable pub diff_proposed : List TaskNode → List FlatPlannedNode → TaskPlanDiff → TaskPlanDiff
diff_proposed current [] diff = diff
diff_proposed current (item ∷ flat) diff =
    diff_proposed current flat
      (diff_found current item (find_by_key current item.node.stable_key) diff)

abbrev pub has_id : List ℕ → ℕ → Bool
has_id set id = any (λ i. i == id) set

-- `set.insert(id)`
abbrev pub insert : ℕ → List ℕ → List ℕ
insert id set = if has_id set id then set else id ∷ set

-- `set.extend(ids)`
abbrev pub extend : List ℕ → List ℕ → List ℕ
extend [] set = set
extend (id ∷ ids) set = extend ids (insert id set)

abbrev pub as_list : Option ℕ → List ℕ
as_list none = []
as_list (some id) = id ∷ []

abbrev pub is_proposed : List Text → TaskNode → Bool
is_proposed proposed_keys node = one_of proposed_keys node.stable_key

abbrev pub is_protected : TaskNode → Bool
is_protected node = is_some (protected_reason node)

abbrev pub has_locks : TaskNode → Bool
has_locks node = elim node.locked_fields [ [] ↦ false | _ ∷ _ ↦ true ]

-- What a node adds to `preserved_omitted` before the closure: an omitted node itself, a proposed
-- one the links of it that stay.
unfoldable pub seeds_of : List Text → TaskNode → List ℕ
seeds_of proposed_keys node =
    if is_proposed proposed_keys node
    then (if is_protected node || one_of node.locked_fields (codes "parent")
        then as_list node.parent_id
        else [])
      ++ (if is_protected node || one_of node.locked_fields (codes "prerequisites")
          then node.prerequisite_ids
          else [])
    else if is_protected node || has_locks node
    then node.id ∷ []
    else []

unfoldable pub seeds : List Text → List TaskNode → List ℕ → List ℕ
seeds proposed_keys [] set = set
seeds proposed_keys (node ∷ nodes) set =
    seeds proposed_keys nodes (extend (seeds_of proposed_keys node) set)

-- The parent and the prerequisites of a node.
abbrev pub links_of : Option TaskNode → List ℕ
links_of none = []
links_of (some node) = as_list node.parent_id ++ node.prerequisite_ids

-- What one round of the loop adds, for the ids of the snapshot.
unfoldable pub links_of_all : List TaskNode → List ℕ → List ℕ
links_of_all current [] = []
links_of_all current (id ∷ snapshot) =
    links_of (find_by_id current id) ++ links_of_all current snapshot

unfoldable pub round : List TaskNode → List ℕ → List ℕ
round current set = extend (links_of_all current set) set

-- The loop, with fuel.
unfoldable pub close : ℕ → List TaskNode → List ℕ → List ℕ
close zero current set = set
close (suc fuel) current set =
    let next = round current set in
    elim (length next == length set) [ true ↦ next | false ↦ close fuel current next ]

-- All ids that a round can add.
unfoldable pub all_links : List TaskNode → List ℕ
all_links [] = []
all_links (node ∷ nodes) = links_of (some node) ++ all_links nodes

-- The set after the loop. Each round but the last adds a link, so the fuel is enough.
unfoldable pub preserved_omitted : List Text → List TaskNode → List ℕ
preserved_omitted proposed_keys current =
    close (length (all_links current) + 1) current (seeds proposed_keys current [])

abbrev pub reason_or : Option Reason → Reason → Reason
reason_or none reason = reason
reason_or (some reason) _ = reason

abbrev pub omitted_item : TaskNode → Reason → TaskPlanDiffItem
omitted_item node reason = record {
  stable_key = node.stable_key;
  node_id = some node.id;
  title = node.title;
  changed_fields = [];
  reason = reason;
}

abbrev pub diff_omitted : Bool → TaskNode → TaskPlanDiff → TaskPlanDiff
diff_omitted true node diff =
    preserve (omitted_item node (reason_or (protected_reason node) needed_by_protected)) diff
diff_omitted false node diff = archive (omitted_item node omitted) diff

abbrev pub diff_left_out : (proposed kept : Bool) → TaskNode → TaskPlanDiff → TaskPlanDiff
diff_left_out true kept node diff = diff
diff_left_out false kept node diff = diff_omitted kept node diff

-- The loop over the current nodes that the proposal leaves out.
unfoldable pub diff_current : List Text → List ℕ → List TaskNode → TaskPlanDiff → TaskPlanDiff
diff_current proposed_keys set [] diff = diff
diff_current proposed_keys set (node ∷ nodes) diff =
    diff_current proposed_keys set nodes
      (diff_left_out (is_proposed proposed_keys node) (has_id set node.id) node diff)

abbrev pub no_changes : TaskPlanDiff
no_changes = record { additions = []; updates = []; preserved = []; archives = [] }

abbrev pub proposed_keys_of : PlannedForest → List Text
proposed_keys_of proposed =
    map (λ (item : FlatPlannedNode). item.node.stable_key) (flatten_plan proposed)

unfoldable pub compute_diff : List TaskNode → PlannedForest → TaskPlanDiff
compute_diff current proposed =
    let keys = proposed_keys_of proposed in
    diff_current keys (preserved_omitted keys current) current
      (diff_proposed current (flatten_plan proposed) no_changes)
