-- ===== src/Tree/Forest.antt =====
-- src-tauri/src/tree/state.rs: `validate_forest`. The nodes are generic in the source, and only
-- their children are read, so a forest is its shape: the children of its first node, and the nodes
-- after that one.
pub mod Shape
use rust_forge.Base.{ℕ, ◌+◌, Bool, max, leb, ◌==◌, not, Result, ok, err, ◌>>=◌, ◌>>◌, guard}

pub data Forest : Type 0 where
  no_nodes : Forest
  node_then : (children : Forest) → (rest : Forest) → Forest

pub data ForestError : Type 0 where
  zero_depth : ForestError
  too_deep : ForestError
  too_many : ForestError

abbrev pub max_tree_depth : ℕ
max_tree_depth = 3

abbrev pub max_tree_nodes : ℕ
max_tree_nodes = 40

pub record TreeShape : Type 0 where
  pub node_count : ℕ
  pub max_depth : ℕ

-- `walk`; the shape that it is given by reference is the result.
unfoldable pub walk : Forest → ℕ → TreeShape → Result ForestError TreeShape
walk no_nodes depth shape = ok shape
walk (node_then children rest) depth shape = do
  guard (leb depth max_tree_depth) too_deep
  let count = shape.node_count + 1
  guard (leb count max_tree_nodes) too_many
  inside ←
      walk children (depth + 1)
        (record { node_count = count; max_depth = max shape.max_depth depth })
  walk rest depth inside

unfoldable pub validate_forest : Forest → ℕ → Result ForestError TreeShape
validate_forest roots root_depth = do
  guard (not (root_depth == 0)) zero_depth
  walk roots root_depth (record { node_count = 0; max_depth = 0 })
