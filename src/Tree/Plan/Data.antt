-- ===== src/Tree/Plan/Data.antt =====
-- src-tauri/src/tree/model.rs and service.rs: the nodes of a plan, those of the database and the
-- difference. Ids, priorities and orders are the natural numbers that the validation and the
-- database give them; a standard reference is the text that serde_json writes of it.
use rust_forge.Base.{ℕ, suc, Bool, true, false, List, [], ◌∷◌, ◌++◌, Option, none, some}
use rust_forge.Text.{Text}

-- The fields of a `PlannedNode`, less its children.
pub record PlannedNode : Type 0 where
  pub stable_key : Text
  pub node_type : Text
  pub title : Text
  pub description : Text
  pub why : Text
  pub how_to : Text
  pub verify_criteria : Text
  pub priority : ℕ
  pub required_role : Text
  pub required_session : Text
  pub expected_observation : Text
  pub standard_references : List Text
  pub prerequisite_keys : List Text
  pub finding_ids : List ℕ

-- A list of nodes with their children: the first node, its children, and the nodes after it.
pub data PlannedForest : Type 0 where
  no_nodes : PlannedForest
  node_then : PlannedNode → (children : PlannedForest) → (rest : PlannedForest) → PlannedForest

pub record FlatPlannedNode : Type 0 where
  pub node : PlannedNode
  pub parent_key : Option Text
  pub sort_order : ℕ

-- `walk` of `flatten_plan`, with the index of the first node.
unfoldable pub flatten_nodes : PlannedForest → Option Text → ℕ → List FlatPlannedNode
flatten_nodes no_nodes parent_key index = []
flatten_nodes (node_then node children rest) parent_key index =
    record { node = node; parent_key = parent_key; sort_order = index }
    ∷ (flatten_nodes children (some node.stable_key) 0 ++ flatten_nodes rest parent_key (suc index))

unfoldable pub flatten_plan : PlannedForest → List FlatPlannedNode
flatten_plan phases = flatten_nodes phases none 0

-- The fields of `TaskNode` that the difference and the merge read or write.
pub record TaskNode : Type 0 where
  pub id : ℕ
  pub parent_id : Option ℕ
  pub stable_key : Text
  pub node_type : Text
  pub title : Text
  pub description : Text
  pub why : Text
  pub how_to : Text
  pub verify_criteria : Text
  pub priority : ℕ
  pub required_role : Text
  pub required_session : Text
  pub expected_observation : Text
  pub standard_references : List Text
  pub source : Text
  pub locked_fields : List Text
  pub status : Text
  pub sort_order : ℕ
  pub finding_ids : List ℕ
  pub prerequisite_ids : List ℕ
  pub evidence_ids : List ℕ

abbrev pub has_evidence : TaskNode → Bool
has_evidence node = elim node.evidence_ids [ [] ↦ false | _ ∷ _ ↦ true ]

pub data Reason : Type 0 where
  added : Reason
  unlocked_fields : Reason
  unchanged : Reason
  only_locked : Reason
  manual_node : Reason
  linked_evidence : Reason
  human_progress : Reason
  needed_by_protected : Reason
  omitted : Reason

pub record TaskPlanDiffItem : Type 0 where
  pub stable_key : Text
  pub node_id : Option ℕ
  pub title : Text
  pub changed_fields : List Text
  pub reason : Reason

pub record TaskPlanDiff : Type 0 where
  pub additions : List TaskPlanDiffItem
  pub updates : List TaskPlanDiffItem
  pub preserved : List TaskPlanDiffItem
  pub archives : List TaskPlanDiffItem
