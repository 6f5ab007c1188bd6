-- ===== src/Tree/Next/Fuel.antt =====
-- That the climb to the ancestors has fuel enough.
use rust_forge.Base.{
  ℕ, zero, suc, ◌+◌, ◌≤◌, ◌<◌, ◌≡◌, refl, inl, inr, Bool, true, false, List, [], ◌∷◌, Option, none,
  some, arith, length, ◌==◌, if◌then◌else◌, Bool-cases, Option-cases,
}
use rust_forge.Tree.Next.{
  TaskNode, or_this, find_node, is_seen, stops_at, climb, ancestors_allow_execution,
}

-- The nodes whose id has not been visited.
pub unvisited : List TaskNode → List ℕ → ℕ
unvisited [] visited = 0
unvisited (node ∷ nodes) visited =
    let rest = unvisited nodes visited in if is_seen visited node.id then rest else suc rest

pub unvisited-length :
    (nodes : List TaskNode) (visited : List ℕ) → unvisited nodes visited ≤ length nodes
unfolding unvisited
unvisited-length [] visited = omega arith
unvisited-length (node ∷ nodes) visited = ground (arith, unvisited-length nodes visited)

unvisited-cons :
    (nodes : List TaskNode) (visited : List ℕ) (id : ℕ)
    → unvisited nodes (id ∷ visited) ≤ unvisited nodes visited
unfolding unvisited
unvisited-cons [] visited id = omega arith
unvisited-cons (node ∷ nodes) visited id = ground (arith, unvisited-cons nodes visited id)

or_this_same :
    (id : ℕ) (node parent : TaskNode) → or_this none id node ≡ some parent → (node.id == id) ≡ true
or_this_same id node parent h = elim (Bool-cases (node.id == id)) [
  | inl e ↦ e
  | inr e ↦ let k : none ≡ some parent = rw e at h in cc k
]

-- A visit of a node that was not visited before leaves fewer.
pub unvisited_less :
    (nodes : List TaskNode) (visited : List ℕ) (id : ℕ) (parent : TaskNode)
    → find_node nodes id ≡ some parent
    → is_seen visited id ≡ false
    → unvisited nodes (id ∷ visited) < unvisited nodes visited
unfolding unvisited find_node
unvisited_less [] visited id parent h fresh = cc
unvisited_less (node ∷ nodes) visited id parent h fresh = elim (Option-cases (find_node nodes id)) [
  | inr (later, e) ↦ ground (arith, unvisited_less nodes visited id later e fresh)
  | inl e ↦
      let same : (node.id == id) ≡ true = or_this_same id node parent (rw e at h) in
      ground (arith, unvisited-cons nodes visited id)
]

stopped :
    (stops : Bool) (above : Option Bool)
    → (answer : Bool) × (above ≡ some answer)
    → (answer : Bool) × ((if stops then some false else above) ≡ some answer)
stopped true above h = (false, refl)
stopped false above h = h

-- With more fuel than nodes that are left the climb ends with an answer.
climb_ends :
    (n : ℕ) (nodes : List TaskNode) (visited : List ℕ) (current : Option ℕ)
    → unvisited nodes visited < n
    → (answer : Bool) × (climb n nodes visited current ≡ some answer)
unfolding climb
climb_ends zero nodes visited current h = absurd (omega arith)
climb_ends (suc n) nodes visited none h = (true, refl)
climb_ends (suc n) nodes visited (some id) h = elim (Bool-cases (is_seen visited id)) [
  | inl seen ↦ rw seen (false, refl)
  | inr fresh ↦ elim (Option-cases (find_node nodes id)) [
    | inl gap ↦ rw (fresh, gap) (false, refl)
    | inr (parent, e) ↦
        let less = unvisited_less nodes visited id parent e fresh in
        let above = climb_ends n nodes (id ∷ visited) parent.parent_id (omega arith) in
        rw (fresh, e) (stopped (stops_at parent) _ above)
  ]
]

-- The climb to the ancestors of a task ends, also where the links form a cycle: the fuel that it is
-- given, one more than there are tasks, yields an answer, which is what
-- `ancestors_allow_execution` returns.
pub ancestors_fuel :
    (node : TaskNode) (nodes : List TaskNode)
    → climb (length nodes + 1) nodes [] node.parent_id ≡ some (ancestors_allow_execution node nodes)
unfolding ancestors_allow_execution
ancestors_fuel node nodes =
    let few = unvisited-length nodes [] in
    let (answer, e) = climb_ends (length nodes + 1) nodes [] node.parent_id (omega arith) in
    rw e refl
