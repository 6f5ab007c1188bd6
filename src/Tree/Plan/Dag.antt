-- ===== src/Tree/Plan/Dag.antt =====
-- src-tauri/src/tree/service.rs: `validate_prerequisite_dag`, the search for a cycle among the
-- prerequisites. The order of the keys of the hash map is that of the nodes; the theorems show
-- that the answer does not depend on it. The recursion has fuel, and rejects when that is used up;
-- one more than the number of nodes is enough, by the theorem on acyclic plans.
pub mod Ranked
pub mod Accepted
use rust_forge.Base.{
  ℕ, zero, suc, ◌+◌, Bool, true, false, List, [], ◌∷◌, map, length, Option, none, some, Result, ok,
  err, guard, if◌then◌else◌,
}
use rust_forge.Text.{Text, text_eq, one_of}
use rust_forge.Tree.Plan.Data.{FlatPlannedNode}

-- `edges.get(key)`: of two nodes with one key the map keeps the later one.
abbrev pub or_this : Option (List Text) → Text → FlatPlannedNode → Option (List Text)
or_this (some later) key item = some later
or_this none key item =
    if text_eq item.node.stable_key key then some item.node.prerequisite_keys else none

unfoldable pub find_edges : List FlatPlannedNode → Text → Option (List Text)
find_edges [] key = none
find_edges (item ∷ nodes) key = or_this (find_edges nodes key) key item

-- `edges.get(key).into_iter().flatten()`
abbrev pub flat : Option (List Text) → List Text
flat none = []
flat (some keys) = keys

abbrev pub dependencies : List FlatPlannedNode → Text → List Text
dependencies nodes key = flat (find_edges nodes key)

pub record Marks : Type 0 where
  pub visiting : List Text
  pub complete : List Text

abbrev pub remove : Text → List Text → List Text
remove key [] = []
remove key (k ∷ keys) = let rest = remove key keys in if text_eq k key then rest else k ∷ rest

-- The last two statements of `visit`, where no dependency has failed.
abbrev pub finish : Text → Bool × Marks → Bool × Marks
finish key (false, m) = (false, m)
finish key (true, m) =
    (true, record { visiting = remove key m.visiting; complete = key ∷ m.complete })

-- The keys one after the other, until one fails.
abbrev pub visit_rest : (Marks → Bool × Marks) → Bool × Marks → Bool × Marks
visit_rest go (false, m) = (false, m)
visit_rest go (true, m) = go m

abbrev pub visit_all : (Text → Marks → Bool × Marks) → List Text → Marks → Bool × Marks
visit_all visit [] m = (true, m)
visit_all visit (key ∷ keys) m = visit_rest (visit_all visit keys) (visit key m)

unfoldable pub visit : ℕ → List FlatPlannedNode → Text → Marks → Bool × Marks
visit zero nodes key m = (false, m)
visit (suc fuel) nodes key m = elim (one_of m.complete key) [
  | true ↦ (true, m)
  | false ↦ elim (one_of m.visiting key) [
    | true ↦ (false, m)
    | false ↦ finish key (
        visit_all (visit fuel nodes) (dependencies nodes key)
          (record { visiting = key ∷ m.visiting; complete = m.complete }))
  ]
]

pub data PlanError : Type 0 where
  missing_title : PlanError
  malformed_node : PlanError
  malformed_key : Text → PlanError
  repeated_key : Text → PlanError
  depends_on_itself : Text → PlanError
  unknown_prerequisite : Text → PlanError
  cyclic_prerequisites : PlanError
  unknown_parent : Text → PlanError

abbrev pub keys_of : List FlatPlannedNode → List Text
keys_of = map (λ (item : FlatPlannedNode). item.node.stable_key)

unfoldable pub is_acyclic : List FlatPlannedNode → Bool
is_acyclic nodes =
    (visit_all (visit (length nodes + 1) nodes) (keys_of nodes)
      (record { visiting = []; complete = [] })).0

unfoldable pub validate_prerequisite_dag : List FlatPlannedNode → Result PlanError (Unit {0})
validate_prerequisite_dag nodes = guard (is_acyclic nodes) cyclic_prerequisites
