-- ===== src/Tree/Next.antt =====
-- src-tauri/src/tree/state.rs: `next_actionable`, the task that is to be done next. Ids, priorities
-- and risk ranks are the natural numbers that the database and the validation give them; a time of
-- creation is its text.
pub mod Climb
pub mod Fuel
pub mod Sound
pub mod Order
use mathlib.Core.Option
use rust_forge.Base.{
  ℕ, zero, suc, ◌+◌, Bool, true, false, not, ◌&&◌, ◌||◌, List, [], ◌∷◌, Option, none, some, length,
  any, all, ltb, leb, ◌==◌, if◌then◌else◌, is_some_and,
}
use rust_forge.Text.{Text, codes, text_eq, text_le, one_of}
use rust_forge.Tree.State.{is_terminal}

-- The fields of `TaskNode` (tree/model.rs) that the choice reads.
pub record TaskNode : Type 0 where
  pub id : ℕ
  pub parent_id : Option ℕ
  pub status : Text
  pub priority : ℕ
  pub risk_rank : ℕ
  pub archived : Bool
  pub created_at : Text
  pub prerequisite_ids : List ℕ
  pub evidence_ids : List ℕ

abbrev pub has_evidence : TaskNode → Bool
has_evidence node = elim node.evidence_ids [ [] ↦ false | _ ∷ _ ↦ true ]

abbrev pub filter : (TaskNode → Bool) → List TaskNode → List TaskNode
filter p [] = []
filter p (node ∷ nodes) = let rest = filter p nodes in if p node then node ∷ rest else rest

-- `nodes_by_id.get(id)`: of two nodes with one id the map keeps the later one.
abbrev pub or_this : Option TaskNode → ℕ → TaskNode → Option TaskNode
or_this (some later) id node = some later
or_this none id node = if node.id == id then some node else none

unfoldable pub find_node : List TaskNode → ℕ → Option TaskNode
find_node [] id = none
find_node (node ∷ nodes) id = or_this (find_node nodes id) id node

abbrev pub is_done_with : TaskNode → Bool
is_done_with prerequisite = not prerequisite.archived && is_terminal prerequisite.status

unfoldable pub prerequisites_satisfied : TaskNode → List TaskNode → Bool
prerequisites_satisfied node nodes =
    all (λ id. is_some_and is_done_with (find_node nodes id)) node.prerequisite_ids

abbrev pub is_executable : Text → Bool
is_executable status = one_of (codes "todo" ∷ codes "in_progress" ∷ []) status

abbrev pub is_seen : List ℕ → ℕ → Bool
is_seen visited id = any (λ v. v == id) visited

abbrev pub stops_at : TaskNode → Bool
stops_at parent = parent.archived || not (is_executable parent.status)

-- The loop of `ancestors_allow_execution`, with fuel: there is no answer where the fuel is used up.
unfoldable pub climb : ℕ → List TaskNode → List ℕ → Option ℕ → Option Bool
climb zero nodes visited current = none
climb (suc fuel) nodes visited none = some true
climb (suc fuel) nodes visited (some id) =
    if is_seen visited id then some false else elim (find_node nodes id) [
      | none ↦ some false
      | some parent ↦
          let above = climb fuel nodes (id ∷ visited) parent.parent_id in
          if stops_at parent then some false else above
    ]

abbrev pub says_yes : Option Bool → Bool
says_yes none = false
says_yes (some answer) = answer

unfoldable pub ancestors_allow_execution : TaskNode → List TaskNode → Bool
ancestors_allow_execution node nodes = says_yes (climb (length nodes + 1) nodes [] node.parent_id)

-- `a.cmp(&b).then_with(…)` is not `Greater`, where `rest` says so of what follows.
abbrev pub then_with : ℕ → ℕ → Bool → Bool
then_with a b rest = if a == b then rest else ltb a b

-- `false` comes before `true`.
abbrev pub evidence_rank : TaskNode → ℕ
evidence_rank node = if has_evidence node then 1 else 0

abbrev pub created_before : TaskNode → TaskNode → Bool
created_before left right =
    if text_eq left.created_at right.created_at
    then leb left.id right.id
    else text_le left.created_at right.created_at

-- The comparison of the sort: the left one does not come after the right one.
unfoldable pub not_after : TaskNode → TaskNode → Bool
not_after left right = then_with right.risk_rank left.risk_rank (
    then_with left.priority right.priority
      (then_with (evidence_rank left) (evidence_rank right) (created_before left right)))

unfoldable pub insert_task : TaskNode → List TaskNode → List TaskNode
insert_task node [] = node ∷ []
insert_task node (t ∷ ts) =
    let rest = insert_task node ts in if not_after node t then node ∷ t ∷ ts else t ∷ rest

-- `candidates.sort_by(…)`
unfoldable pub sort_tasks : List TaskNode → List TaskNode
sort_tasks [] = []
sort_tasks (node ∷ nodes) = insert_task node (sort_tasks nodes)

abbrev pub is_child_of : ℕ → TaskNode → Bool
is_child_of id node = not (is_terminal node.status) && is_some_and (λ p. p == id) node.parent_id

unfoldable pub has_unfinished_child : List TaskNode → TaskNode → Bool
has_unfinished_child active node = any (is_child_of node.id) active

abbrev pub active_of : List TaskNode → List TaskNode
active_of nodes = filter (λ node. not node.archived) nodes

-- The filters of the candidates, in their order.
unfoldable pub is_candidate : List TaskNode → TaskNode → Bool
is_candidate active node =
    is_executable node.status
    && not (has_unfinished_child active node)
    && ancestors_allow_execution node active
    && prerequisites_satisfied node active

abbrev pub first_id : List TaskNode → Option ℕ
first_id [] = none
first_id (node ∷ _) = some node.id

unfoldable pub next_actionable : List TaskNode → Option ℕ
next_actionable nodes =
    let active = active_of nodes in first_id (sort_tasks (filter (is_candidate active) active))
