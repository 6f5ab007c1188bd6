-- ===== src/Tests/Proposals.antt =====
-- Proposals for a test plan at concrete inputs.
use rust_forge.Base.{All, ℕ, ◌≡◌, ◌↔◌, refl, List, [], ◌∷◌, none, some, Option, ok}
use rust_forge.Text.{Text, codes}
use rust_forge.Tree.Plan.Data.{
  PlannedNode, PlannedForest, no_nodes, node_then, TaskNode, flatten_plan,
}
use rust_forge.Tree.Plan.Dag.{validate_prerequisite_dag}
use rust_forge.Tree.Plan.Dag.Ranked.{Ranking}
use rust_forge.Tree.Plan.Dag.Accepted.{validate_prerequisite_dag_iff}
use rust_forge.Tree.Plan.Diff.{compute_diff, proposed_keys_of, find_by_id}
use rust_forge.Tree.Plan.Diff.Allowed.{IsAllowed, updates_are-IsAllowed}
use rust_forge.Tree.Plan.Diff.Links.{HasOwnId, KeepsLinks, archives_keep_links}

abbrev planned : Text → Text → List Text → PlannedNode
planned key title prerequisites = record {
  stable_key = key;
  node_type = codes "test";
  title = title;
  description = [];
  why = [];
  how_to = [];
  verify_criteria = [];
  priority = 1;
  required_role = [];
  required_session = [];
  expected_observation = [];
  standard_references = [];
  prerequisite_keys = prerequisites;
  finding_ids = [];
}

abbrev proposed : PlannedForest
proposed =
    node_then (planned (codes "a") (codes "Login") [])
      (node_then (planned (codes "b") (codes "Roles") (codes "a" ∷ [])) no_nodes no_nodes) no_nodes

abbrev task : ℕ → Text → Text → Option ℕ → TaskNode
task id key status parent_id = record {
  id = id;
  parent_id = parent_id;
  stable_key = key;
  node_type = codes "test";
  title = key;
  description = [];
  why = [];
  how_to = [];
  verify_criteria = [];
  priority = 1;
  required_role = [];
  required_session = [];
  expected_observation = [];
  standard_references = [];
  source = codes "ai";
  locked_fields = [];
  status = status;
  sort_order = 0;
  finding_ids = [];
  prerequisite_ids = [];
  evidence_ids = [];
}

-- A task that is proposed again, one that is done below an old parent, and that parent.
abbrev current : List TaskNode
current =
    task 1 (codes "a") (codes "todo") none
    ∷ task 2 (codes "old") (codes "todo") none
    ∷ task 3 (codes "kept") (codes "done") (some 2)
    ∷ []

validate_prerequisite_dag_iff_example :
    (validate_prerequisite_dag (flatten_plan proposed) ≡ ok tt)
    ↔ ((height : Text → ℕ) × Ranking (flatten_plan proposed) height)
validate_prerequisite_dag_iff_example = validate_prerequisite_dag_iff (flatten_plan proposed)

updates_are-IsAllowed_example : All (IsAllowed current) (compute_diff current proposed).updates
updates_are-IsAllowed_example = updates_are-IsAllowed current proposed

own_ids : All (HasOwnId current) current
unfolding find_by_id
own_ids = (refl, (refl, (refl, tt)))

archives_keep_links_example :
    All (KeepsLinks (proposed_keys_of proposed) (compute_diff current proposed)) current
archives_keep_links_example = archives_keep_links current proposed own_ids
