-- ===== src/Tree/Next/Sound.antt =====
-- What the next task is.
use rust_forge.Base.{
  ℕ, zero, suc, ◌+◌, ◌≡◌, ◌≢◌, refl, ◌⊎◌, inl, inr, Bool, true, false, not, ◌&&◌, List, [], ◌∷◌,
  Option, none, some, arith, length, any, all, All, Any, ◌==◌, if◌then◌else◌, is_some_and,
  Bool-cases, Option-cases, and-eq-true, or-eq-false, some-injective,
}
use rust_forge.Tree.State.{is_terminal}
use rust_forge.Tree.Next.{
  TaskNode, filter, find_node, is_done_with, prerequisites_satisfied, is_executable, is_seen,
  stops_at, says_yes, climb, ancestors_allow_execution, not_after, insert_task, sort_tasks,
  is_child_of, has_unfinished_child, active_of, is_candidate, first_id, next_actionable,
}

-- The parent, its parent and so on up to a root are active and executable.
pub data Ancestors (nodes : List TaskNode) : Option ℕ → Type 0 where
  root : Ancestors nodes none
  above :
      {id : ℕ} {parent : TaskNode}
      → find_node nodes id ≡ some parent
      → parent.archived ≡ false
      → is_executable parent.status ≡ true
      → Ancestors nodes parent.parent_id
      → Ancestors nodes (some id)

pub climb-Ancestors :
    (n : ℕ) (nodes : List TaskNode) (visited : List ℕ) (current : Option ℕ)
    → says_yes (climb n nodes visited current) ≡ true
    → Ancestors nodes current
unfolding climb
climb-Ancestors zero nodes visited current h = cc
climb-Ancestors (suc n) nodes visited none h = root
climb-Ancestors (suc n) nodes visited (some id) h = elim (Bool-cases (is_seen visited id)) [
  | inl seen ↦ let k : false ≡ true = rw seen at h in cc k
  | inr fresh ↦ elim (Option-cases (find_node nodes id)) [
    | inl gap ↦ let k : false ≡ true = rw (fresh, gap) at h in cc k
    | inr (parent, e) ↦
        let k : says_yes (
              if stops_at parent then some false else climb n nodes (id ∷ visited) parent.parent_id)
            ≡ true =
          rw (fresh, e) at h in
        let parts : (stops_at parent ≡ false)
            × (says_yes (climb n nodes (id ∷ visited) parent.parent_id) ≡ true) =
          ground arith in
        let (kept, runs) =
          or-eq-false parent.archived (not (is_executable parent.status)) parts.0 in
        above e kept (ground arith)
          (climb-Ancestors n nodes (id ∷ visited) parent.parent_id parts.1)
  ]
]

-- What is promised of the next task, among the active ones.
pub record IsNext (active : List TaskNode) (node : TaskNode) : Type 0 where
  pub kept : node.archived ≡ false
  pub executable : is_executable node.status ≡ true
  pub children_ended :
      All (λ child. (is_terminal child.status ≡ true) ⊎ (child.parent_id ≢ some node.id)) active
  pub ancestors : Ancestors active node.parent_id
  pub prerequisites_ended :
      All
        (λ id.
          (p : TaskNode) × (find_node active id ≡ some p)
          × (p.archived ≡ false)
          × (is_terminal p.status ≡ true))
        node.prerequisite_ids

not_child :
    (ended : Bool) (parent : Option ℕ) (id : ℕ)
    → (not ended && is_some_and (λ p. p == id) parent) ≡ false
    → (ended ≡ true) ⊎ (parent ≢ some id)
not_child true parent id h = inl refl
not_child false none id h = inr (λ e. cc e)
not_child false (some p) id h = inr (λ e. let same : p ≡ id = some-injective e in ground arith)

no_child :
    (id : ℕ) (active : List TaskNode)
    → any (is_child_of id) active ≡ false
    → All (λ child. (is_terminal child.status ≡ true) ⊎ (child.parent_id ≢ some id)) active
no_child id [] h = tt
no_child id (child ∷ active) h =
    let parts = or-eq-false (is_child_of id child) (any (is_child_of id) active) h in
    (not_child (is_terminal child.status) child.parent_id id parts.0, no_child id active parts.1)

prerequisites_end :
    (active : List TaskNode) (ids : List ℕ)
    → all (λ id. is_some_and is_done_with (find_node active id)) ids ≡ true
    → All
        (λ id.
          (p : TaskNode) × (find_node active id ≡ some p)
          × (p.archived ≡ false)
          × (is_terminal p.status ≡ true))
        ids
prerequisites_end active [] h = tt
prerequisites_end active (id ∷ ids) h =
    let parts = and-eq-true (is_some_and is_done_with (find_node active id)) _ h in
    (
      elim (Option-cases (find_node active id)) [
        | inl e ↦ let k : false ≡ true = rw e at parts.0 in absurd (cc k)
        | inr (p, e) ↦
            let k : is_done_with p ≡ true = rw e at parts.0 in
            let both = and-eq-true (not p.archived) (is_terminal p.status) k in
            (p, e, ground arith, both.1)
      ],
      prerequisites_end active ids parts.1,
    )

candidate-IsNext :
    (active : List TaskNode) (node : TaskNode)
    → node.archived ≡ false
    → is_candidate active node ≡ true
    → IsNext active node
unfolding is_candidate has_unfinished_child ancestors_allow_execution prerequisites_satisfied
candidate-IsNext active node k h =
    let p1 = and-eq-true _ (prerequisites_satisfied node active) h in
    let p2 = and-eq-true _ (ancestors_allow_execution node active) p1.0 in
    let p3 = and-eq-true (is_executable node.status) _ p2.0 in
    record {
      kept = k;
      executable = p3.0;
      children_ended = no_child node.id active (ground arith);
      ancestors = climb-Ancestors (length active + 1) active [] node.parent_id p2.1;
      prerequisites_ended = prerequisites_end active node.prerequisite_ids p1.1;
    }

module _ (P : TaskNode → Type 0) where
  filter-Any :
      (q : TaskNode → Bool) (nodes : List TaskNode)
      → Any P (filter q nodes)
      → Any (λ n. (q n ≡ true) × P n) nodes
  filter-Any q [] h = h
  filter-Any q (node ∷ nodes) h = elim (Bool-cases (q node)) [
    | inl e ↦
        let k : Any P (node ∷ filter q nodes) = rw e at h in
        elim k [ inl now ↦ inl (e, now) | inr later ↦ inr (filter-Any q nodes later) ]
    | inr e ↦ let k : Any P (filter q nodes) = rw e at h in inr (filter-Any q nodes k)
  ]

  insert-Any :
      (node : TaskNode) (ts : List TaskNode) → Any P (insert_task node ts) → P node ⊎ Any P ts
  unfolding insert_task
  insert-Any node [] h = h
  insert-Any node (t ∷ ts) h = elim (Bool-cases (not_after node t)) [
    | inl e ↦ let k : Any P (node ∷ t ∷ ts) = rw e at h in k
    | inr e ↦
        let k : Any P (t ∷ insert_task node ts) = rw e at h in
        elim k [
          | inl now ↦ inr (inl now)
          | inr later ↦ elim (insert-Any node ts later) [
            | inl this ↦ inl this
            | inr there ↦ inr (inr there)
          ]
        ]
  ]

  sort-Any : (nodes : List TaskNode) → Any P (sort_tasks nodes) → Any P nodes
  unfolding sort_tasks
  sort-Any [] h = h
  sort-Any (node ∷ nodes) h = elim (insert-Any node (sort_tasks nodes) h) [
    | inl now ↦ inl now
    | inr later ↦ inr (sort-Any nodes later)
  ]

  Any-map :
      (Q : TaskNode → Type 0) (nodes : List TaskNode)
      → ((n : TaskNode) → P n → Q n)
      → Any P nodes
      → Any Q nodes
  Any-map Q [] f h = h
  Any-map Q (node ∷ nodes) f (inl now) = inl (f node now)
  Any-map Q (node ∷ nodes) f (inr later) = inr (Any-map Q nodes f later)

insert_not_empty : (node : TaskNode) (ts : List TaskNode) → insert_task node ts ≢ []
unfolding insert_task
insert_not_empty node [] e = cc e
insert_not_empty node (t ∷ ts) e = elim (Bool-cases (not_after node t)) [
  | inl f ↦ let k : node ∷ t ∷ ts ≡ [] = rw f at e in cc k
  | inr f ↦ let k : t ∷ insert_task node ts ≡ [] = rw f at e in cc k
]

sort_empty : (nodes : List TaskNode) → sort_tasks nodes ≡ [] → nodes ≡ []
unfolding sort_tasks
sort_empty [] e = refl
sort_empty (node ∷ nodes) e = absurd (insert_not_empty node (sort_tasks nodes) e)

filter_empty :
    (q : TaskNode → Bool) (nodes : List TaskNode)
    → filter q nodes ≡ []
    → All (λ n. q n ≡ false) nodes
filter_empty q [] e = tt
filter_empty q (node ∷ nodes) e = elim (Bool-cases (q node)) [
  | inl f ↦ let k : node ∷ filter q nodes ≡ [] = rw f at e in absurd (cc k)
  | inr f ↦ let k : filter q nodes ≡ [] = rw f at e in (f, filter_empty q nodes k)
]

abbrev pub NextAnswers : List TaskNode → Option ℕ → Type 0
NextAnswers nodes none = All (λ node. is_candidate (active_of nodes) node ≡ false) (active_of nodes)
NextAnswers nodes (some id) = Any (λ node. (node.id ≡ id) × IsNext (active_of nodes) node) nodes

-- The task that is chosen is one of the plan that is active and executable, has no child that is not
-- ended, and whose ancestors are all active and executable and whose prerequisites have all ended.
-- None is chosen only where no active task passes the filters.
pub next_actionable-NextAnswers :
    (nodes : List TaskNode) → NextAnswers nodes (next_actionable nodes)
unfolding next_actionable
next_actionable-NextAnswers nodes = go (sort_tasks (filter (is_candidate active) active)) refl
  where
    active : List TaskNode
    active = active_of nodes

    go :
        (sorted : List TaskNode)
        → sort_tasks (filter (is_candidate active) active) ≡ sorted
        → NextAnswers nodes (first_id sorted)
    go [] e =
        filter_empty (is_candidate active) active
          (sort_empty (filter (is_candidate active) active) e)
    go (node ∷ rest) e =
        let here : Any (λ n. n.id ≡ node.id) (sort_tasks (filter (is_candidate active) active)) =
          rw e (inl refl) in
        let candidates =
          sort-Any (λ n. n.id ≡ node.id) (filter (is_candidate active) active) here in
        let passed = filter-Any (λ n. n.id ≡ node.id) (is_candidate active) active candidates in
        let among =
          filter-Any (λ n. (is_candidate active n ≡ true) × (n.id ≡ node.id)) (λ n. not n.archived)
            nodes passed in
        Any-map _ _ nodes (λ n h. (h.1.1, candidate-IsNext active n (ground arith) h.1.0)) among
