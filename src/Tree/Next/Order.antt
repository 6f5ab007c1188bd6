-- ===== src/Tree/Next/Order.antt =====
-- The order in which tasks are chosen.
use rust_forge.Base.{
  ℕ, ◌<◌, ◌≤◌, ◌≡◌, refl, ap, sym, subst, ◌⊎◌, inl, inr, Bool, true, false, List, [], ◌∷◌, none,
  some, arith, leb, if◌then◌else◌, All, Any, Bool-cases,
}
use rust_forge.Text.{Text, text_eq, text_le}
use rust_forge.Text.Laws.{text_eq→eq}
use rust_forge.Tree.Next.{
  TaskNode, has_evidence, then_with, evidence_rank, created_before, filter, not_after, insert_task,
  sort_tasks, active_of, is_candidate, first_id, next_actionable,
}

text_le_refl : (s : Text) → text_le s s ≡ true
text_le_refl [] = refl
text_le_refl (c ∷ s) = ground (arith, text_le_refl s)

text_le_total : (s t : Text) → text_le s t ≡ false → text_le t s ≡ true
text_le_total [] t h = cc
text_le_total (c ∷ s) [] h = refl
text_le_total (c ∷ s) (d ∷ t) h = ground (arith, text_le_total s t)

text_le_trans : (s t u : Text) → text_le s t ≡ true → text_le t u ≡ true → text_le s u ≡ true
text_le_trans [] t u h k = refl
text_le_trans (c ∷ s) [] u h k = cc
text_le_trans (c ∷ s) (d ∷ t) [] h k = cc
text_le_trans (c ∷ s) (d ∷ t) (e ∷ u) h k = ground (arith, text_le_trans s t u)

text_le_antisym : (s t : Text) → text_le s t ≡ true → text_le t s ≡ true → text_eq s t ≡ true
text_le_antisym [] [] h k = refl
text_le_antisym [] (d ∷ t) h k = cc
text_le_antisym (c ∷ s) [] h k = cc
text_le_antisym (c ∷ s) (d ∷ t) h k = ground (arith, text_le_antisym s t)

then_with_trans :
    (a b c : ℕ) (r s t : Bool)
    → (r ≡ true → s ≡ true → t ≡ true)
    → then_with a b r ≡ true
    → then_with b c s ≡ true
    → then_with a c t ≡ true
then_with_trans a b c r s t f h k = ground arith

then_with_trans_down :
    (a b c : ℕ) (r s t : Bool)
    → (r ≡ true → s ≡ true → t ≡ true)
    → then_with b a r ≡ true
    → then_with c b s ≡ true
    → then_with c a t ≡ true
then_with_trans_down a b c r s t f h k = ground arith

then_with_total :
    (a b : ℕ) (r s : Bool)
    → (r ≡ false → s ≡ true)
    → then_with a b r ≡ false
    → then_with b a s ≡ true
then_with_total a b r s f h = ground arith

text_eq_sym : (s t : Text) → text_eq s t ≡ text_eq t s
text_eq_sym [] [] = refl
text_eq_sym [] (d ∷ t) = refl
text_eq_sym (c ∷ s) [] = refl
text_eq_sym (c ∷ s) (d ∷ t) = ground (arith, text_eq_sym s t)

created_before_total : (a b : TaskNode) → created_before a b ≡ false → created_before b a ≡ true
created_before_total a b h =
    ground (arith, text_eq_sym a.created_at b.created_at, text_le_total a.created_at b.created_at)

abbrev in_order : Text → ℕ → Text → ℕ → Bool
in_order s i t j = if text_eq s t then leb i j else text_le s t

in_order_trans :
    (s t u : Text) (i j k : ℕ)
    → in_order s i t j ≡ true
    → in_order t j u k ≡ true
    → in_order s i u k ≡ true
in_order_trans s t u i j k p q = elim (Bool-cases (text_eq s t)) [
  | inl e ↦
      let same = text_eq→eq s t e in
      let first : text_eq s u ≡ text_eq t u = ap (λ x. text_eq x u) same in
      let second : text_le s u ≡ text_le t u = ap (λ x. text_le x u) same in ground arith
  | inr e ↦ elim (Bool-cases (text_eq t u)) [
    | inl f ↦
        let same = text_eq→eq t u f in
        let first : text_eq s t ≡ text_eq s u = ap (text_eq s) same in
        let second : text_le s t ≡ text_le s u = ap (text_le s) same in ground arith
    | inr f ↦ elim (Bool-cases (text_eq s u)) [
      | inl g ↦
          let back : text_le t u ≡ text_le t s = ap (text_le t) (sym (text_eq→eq s u g)) in
          ground (arith, text_le_antisym s t)
      | inr g ↦ ground (arith, text_le_trans s t u)
    ]
  ]
]

created_before_trans :
    (a b c : TaskNode)
    → created_before a b ≡ true
    → created_before b c ≡ true
    → created_before a c ≡ true
created_before_trans a b c h k =
    in_order_trans a.created_at b.created_at c.created_at a.id b.id c.id h k

not_after_total : (a b : TaskNode) → not_after a b ≡ false → not_after b a ≡ true
unfolding not_after
not_after_total a b h =
    then_with_total b.risk_rank a.risk_rank _ _
      (then_with_total a.priority b.priority _ _
        (then_with_total (evidence_rank a) (evidence_rank b) _ _ (created_before_total a b)))
      h

not_after_trans :
    (a b c : TaskNode) → not_after a b ≡ true → not_after b c ≡ true → not_after a c ≡ true
unfolding not_after
not_after_trans a b c h k =
    then_with_trans_down a.risk_rank b.risk_rank c.risk_rank _ _ _
      (then_with_trans a.priority b.priority c.priority _ _ _ (
        then_with_trans (evidence_rank a) (evidence_rank b) (evidence_rank c) _ _ _
          (created_before_trans a b c)))
      h k

not_after_refl : (a : TaskNode) → not_after a a ≡ true
not_after_refl a = elim (Bool-cases (not_after a a)) [ inl e ↦ e | inr e ↦ not_after_total a a e ]

-- A task that comes after none of the list.
abbrev IsFirst : TaskNode → List TaskNode → Type 0
IsFirst node ts = All (λ t. not_after node t ≡ true) ts

IsFirst-trans :
    (a b : TaskNode) (ts : List TaskNode) → not_after a b ≡ true → IsFirst b ts → IsFirst a ts
IsFirst-trans a b [] h f = tt
IsFirst-trans a b (t ∷ ts) h (f, fs) = (not_after_trans a b t h f, IsFirst-trans a b ts h fs)

-- The head of a list that is sorted so far comes after none of it.
abbrev HeadIsFirst : List TaskNode → List TaskNode → Type 0
HeadIsFirst [] nodes = nodes ≡ []
HeadIsFirst (t ∷ ts) nodes = IsFirst t nodes

insert-HeadIsFirst :
    (node : TaskNode) (ts nodes : List TaskNode)
    → HeadIsFirst ts nodes
    → HeadIsFirst (insert_task node ts) (node ∷ nodes)
unfolding insert_task
insert-HeadIsFirst node [] nodes h = (not_after_refl node, subst (IsFirst node) (sym h) tt)
insert-HeadIsFirst node (t ∷ ts) nodes h = elim (Bool-cases (not_after node t)) [
  | inl e ↦ rw e (not_after_refl node, IsFirst-trans node t nodes e h)
  | inr e ↦ rw e (not_after_total node t e, h)
]

sort-HeadIsFirst : (nodes : List TaskNode) → HeadIsFirst (sort_tasks nodes) nodes
unfolding sort_tasks
sort-HeadIsFirst [] = refl
sort-HeadIsFirst (node ∷ nodes) =
    insert-HeadIsFirst node (sort_tasks nodes) nodes (sort-HeadIsFirst nodes)

abbrev pub candidates_of : List TaskNode → List TaskNode
candidates_of nodes = filter (is_candidate (active_of nodes)) (active_of nodes)

module _ (P : TaskNode → Type 0) where
  insert-All :
      (node : TaskNode) (ts : List TaskNode) → P node → All P ts → All P (insert_task node ts)
  unfolding insert_task
  insert-All node [] p ps = (p, tt)
  insert-All node (t ∷ ts) p ps = elim (Bool-cases (not_after node t)) [
    | inl e ↦ rw e (p, ps)
    | inr e ↦ rw e (ps.0, insert-All node ts p ps.1)
  ]

  sort-All : (nodes : List TaskNode) → All P nodes → All P (sort_tasks nodes)
  unfolding sort_tasks
  sort-All [] ps = tt
  sort-All (node ∷ nodes) ps = insert-All node (sort_tasks nodes) ps.0 (sort-All nodes ps.1)

abbrev pub Among : List TaskNode → TaskNode → Type 0
Among nodes node = Any (λ t. t ≡ node) nodes

All-Among :
    (nodes more : List TaskNode)
    → ((t : TaskNode) → Among nodes t → Among more t)
    → All (Among more) nodes
All-Among [] more f = tt
All-Among (t ∷ nodes) more f = (f t (inl refl), All-Among nodes more (λ u m. f u (inr m)))

sort-Among : (nodes : List TaskNode) → All (Among nodes) (sort_tasks nodes)
sort-Among nodes = sort-All (Among nodes) nodes (All-Among nodes nodes (λ t m. m))

-- What the order of the sort asks of two tasks.
pub data NotAfter (a b : TaskNode) : Type 0 where
  riskier : b.risk_rank < a.risk_rank → NotAfter a b
  more_urgent : a.risk_rank ≡ b.risk_rank → a.priority < b.priority → NotAfter a b
  less_known :
      a.risk_rank ≡ b.risk_rank
      → a.priority ≡ b.priority
      → has_evidence a ≡ false
      → has_evidence b ≡ true
      → NotAfter a b
  earlier :
      a.risk_rank ≡ b.risk_rank
      → a.priority ≡ b.priority
      → has_evidence a ≡ has_evidence b
      → text_eq a.created_at b.created_at ≡ false
      → text_le a.created_at b.created_at ≡ true
      → NotAfter a b
  lower_id :
      a.risk_rank ≡ b.risk_rank
      → a.priority ≡ b.priority
      → has_evidence a ≡ has_evidence b
      → a.created_at ≡ b.created_at
      → a.id ≤ b.id
      → NotAfter a b

then_with-eq-true :
    (a b : ℕ) (rest : Bool) → then_with a b rest ≡ true → (a < b) ⊎ ((a ≡ b) × (rest ≡ true))
then_with-eq-true a b rest h = ground arith

rank_less : (p q : Bool) → (if p then 1 else 0) < (if q then 1 else 0) → (p ≡ false) × (q ≡ true)
rank_less false false h = absurd (omega arith)
rank_less false true h = (refl, refl)
rank_less true false h = absurd (omega arith)
rank_less true true h = absurd (omega arith)

rank_same : (p q : Bool) → ◌≡◌ {A = ℕ} (if p then 1 else 0) (if q then 1 else 0) → p ≡ q
rank_same false false h = refl
rank_same false true h = absurd (omega arith)
rank_same true false h = absurd (omega arith)
rank_same true true h = refl

not_after-NotAfter : (a b : TaskNode) → not_after a b ≡ true → NotAfter a b
unfolding not_after
not_after-NotAfter a b h = elim (then_with-eq-true b.risk_rank a.risk_rank _ h) [
  | inl less ↦ riskier less
  | inr (risk, h) ↦ elim (then_with-eq-true a.priority b.priority _ h) [
    | inl less ↦ more_urgent (sym risk) less
    | inr (same, h) ↦ elim (then_with-eq-true (evidence_rank a) (evidence_rank b) _ h) [
      | inl less ↦
          let (without, with_it) = rank_less (has_evidence a) (has_evidence b) less in
          less_known (sym risk) same without with_it
      | inr (rank, h) ↦
          let evidence = rank_same (has_evidence a) (has_evidence b) rank in
          elim (Bool-cases (text_eq a.created_at b.created_at)) [
            | inl e ↦
                lower_id (sym risk) same evidence (text_eq→eq a.created_at b.created_at e)
                  (ground arith)
            | inr e ↦ earlier (sym risk) same evidence e (ground arith)
          ]
    ]
  ]
]

IsFirst-NotAfter : (node : TaskNode) (ts : List TaskNode) → IsFirst node ts → All (NotAfter node) ts
IsFirst-NotAfter node [] h = tt
IsFirst-NotAfter node (t ∷ ts) h = (not_after-NotAfter node t h.0, IsFirst-NotAfter node ts h.1)

-- The task that is chosen is a candidate and comes after no candidate: it has the higher risk, else the
-- lower priority, else no evidence where the other has some, else the earlier time, else an id that is
-- not higher. None is chosen only where there is no candidate.
pub next_actionable_first :
    (nodes : List TaskNode)
    → ((next_actionable nodes ≡ none) × (candidates_of nodes ≡ []))
      ⊎ ((node : TaskNode) × (next_actionable nodes ≡ some node.id)
          × Among (candidates_of nodes) node
          × All (NotAfter node) (candidates_of nodes))
unfolding next_actionable
next_actionable_first nodes =
    go (sort_tasks (candidates_of nodes)) (sort-HeadIsFirst (candidates_of nodes))
      (sort-Among (candidates_of nodes))
  where
    go :
        (sorted : List TaskNode)
        → HeadIsFirst sorted (candidates_of nodes)
        → All (Among (candidates_of nodes)) sorted
        → ((first_id sorted ≡ none) × (candidates_of nodes ≡ []))
          ⊎ ((node : TaskNode) × (first_id sorted ≡ some node.id)
              × Among (candidates_of nodes) node
              × All (NotAfter node) (candidates_of nodes))
    go [] h among = inl (refl, h)
    go (node ∷ rest) h among = inr (node, refl, among.0, IsFirst-NotAfter node _ h)
