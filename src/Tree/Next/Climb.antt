-- ===== src/Tree/Next/Climb.antt =====
-- src-tauri/src/tree/state.rs: `ancestors_allow_execution` decides whether the ancestors of a task let it
-- run, also where the links of the tasks form a cycle.
use rust_forge.Base.{
  ℕ, zero, suc, ◌+◌, ◌<◌, ◌≡◌, refl, sym, ◌∙◌, ap, ◌↔◌, inl, inr, Bool, true, false, List, [], ◌∷◌,
  Option, none, some, arith, length, All, ◌==◌, ==_iff, if◌then◌else◌, Bool-cases, some-injective,
}
use rust_forge.Tree.Next.{TaskNode, find_node, is_seen, stops_at, climb, ancestors_allow_execution}
use rust_forge.Tree.Next.Sound.{Ancestors, root, above, climb-Ancestors}
use rust_forge.Tree.Next.Fuel.{unvisited, unvisited-length, unvisited_less, ancestors_fuel}

parent_of : Option TaskNode → Option ℕ
parent_of none = none
parent_of (some node) = node.parent_id

module _ (nodes : List TaskNode) where
  -- How many ancestors there are.
  height : {current : Option ℕ} → Ancestors nodes current → ℕ
  height root = 0
  height (above e kept runs rest) = suc (height rest)

  height_same :
      {c d : Option ℕ} (a : Ancestors nodes c) (b : Ancestors nodes d) → c ≡ d → height a ≡ height b
  unfolding height parent_of
  height_same root root h = refl
  height_same root (above e kept runs rest) h = cc
  height_same (above e kept runs rest) root h = cc
  height_same (above {id = id} {parent = p} e kept runs rest)
        (above {id = id'} {parent = p'} e' kept' runs' rest') h =
      let same : find_node nodes id ≡ find_node nodes id' =
        ap (find_node nodes) (some-injective h) in
      let one : p.parent_id ≡ p'.parent_id = ap parent_of (sym e ∙ same ∙ e') in
      ap suc (height_same rest rest' one)

  -- The id of a task that has more ancestors.
  Below : ℕ → ℕ → Type 0
  Below n id = (rest : Ancestors nodes (some id)) × (n < height rest)

  seen_never :
      (visited : List ℕ) (id : ℕ) (a : Ancestors nodes (some id))
      → All (Below (height a)) visited
      → is_seen visited id ≡ false
  unfolding Below
  seen_never [] id a h = refl
  seen_never (v ∷ visited) id a h = elim (Bool-cases (v == id)) [
    | inl e ↦
        let same = height_same h.0.0 a (ap some ((==_iff v id).0 e)) in
        let less = h.0.1 in absurd (omega arith)
    | inr e ↦ rw e (seen_never visited id a h.1)
  ]

  fewer : (n : ℕ) (visited : List ℕ) → All (Below (suc n)) visited → All (Below n) visited
  unfolding Below
  fewer n [] h = tt
  fewer n (v ∷ visited) h = let less = h.0.1 in ((h.0.0, omega arith), fewer n visited h.1)

  goes_on :
      (stops : Bool) (rest : Option Bool)
      → stops ≡ false
      → rest ≡ some true
      → (if stops then some false else rest) ≡ some true
  goes_on true rest h k = cc
  goes_on false rest h k = k

  climb_reaches :
      (n : ℕ) (visited : List ℕ) {current : Option ℕ} (a : Ancestors nodes current)
      → All (Below (height a)) visited
      → unvisited nodes visited < n
      → climb n nodes visited current ≡ some true
  unfolding climb height Below
  climb_reaches zero visited a h enough = absurd (omega arith)
  climb_reaches (suc n) visited root h enough = refl
  climb_reaches (suc n) visited (above {id = id} {parent = p} e kept runs rest) h enough =
      let whole : Ancestors nodes (some id) = above e kept runs rest in
      let fresh = seen_never visited id whole h in
      let less = unvisited_less nodes visited id p e fresh in
      let later =
        climb_reaches n (id ∷ visited) rest ((whole, omega arith), fewer (height rest) visited h)
          (omega arith) in
      rw (fresh, e) (goes_on (stops_at p) _ (ground arith) later)

-- The climb to the ancestors of a task ends with an answer within its fuel, one unit more than there
-- are tasks, also where the links form a cycle. The answer, which `ancestors_allow_execution`
-- returns, is yes exactly when finitely many parents, each there, active and executable, lead to a root.
pub ancestors_allow_execution_iff :
    (node : TaskNode) (nodes : List TaskNode)
    → (climb (length nodes + 1) nodes [] node.parent_id
        ≡ some (ancestors_allow_execution node nodes))
      × ((ancestors_allow_execution node nodes ≡ true) ↔ Ancestors nodes node.parent_id)
unfolding ancestors_allow_execution
ancestors_allow_execution_iff node nodes =
    let few = unvisited-length nodes [] in
    (
      ancestors_fuel node nodes,
      (
        climb-Ancestors (length nodes + 1) nodes [] node.parent_id,
        λ a. rw (climb_reaches nodes (length nodes + 1) [] a tt (omega arith)) refl,
      ),
    )
