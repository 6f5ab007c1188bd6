-- ===== src/Tree/Plan/Dag/Ranked.antt =====
-- What `validate_prerequisite_dag` accepts is acyclic: the order in which the search completes the
-- keys ranks every dependency below its node.
use rust_forge.Base.{
  ℕ, zero, suc, ◌+◌, ◌<◌, ◌≡◌, refl, sym, subst, inl, inr, Bool, true, false, List, [], ◌∷◌, length,
  All, ok, Bool-cases, if◌then◌else◌, arith,
}
use rust_forge.Text.{Text, text_eq, one_of}
use rust_forge.Text.Laws.{text_eq→eq, text_eq_refl}
use rust_forge.Tree.Plan.Data.{FlatPlannedNode}
use rust_forge.Tree.Plan.Dag.{
  Marks, dependencies, finish, visit_rest, visit_all, visit, keys_of, is_acyclic,
  validate_prerequisite_dag,
}

abbrev pub Holds : List Text → Text → Type 0
Holds keys key = one_of keys key ≡ true

-- Each key was completed after its dependencies; the newest comes first.
abbrev Ordered : List FlatPlannedNode → List Text → Type 0
Ordered nodes [] = Unit
Ordered nodes (c ∷ rest) = All (Holds rest) (dependencies nodes c) × Ordered nodes rest

abbrev Extends : List Text → List Text → Type 0
Extends old new = (key : Text) → Holds old key → Holds new key

-- What a visit that succeeds does to the keys that are complete.
abbrev Completes : List FlatPlannedNode → (List Text → Type 0) → Marks → Bool × Marks → Type 0
Completes nodes P m r =
    Ordered nodes m.complete
    → r.0 ≡ true
    → P r.1.complete × Ordered nodes r.1.complete × Extends m.complete r.1.complete

Holds-head : (key : Text) (keys : List Text) → Holds (key ∷ keys) key
unfolding one_of
Holds-head key keys = ground (arith, text_eq_refl key)

Holds-tail : (key k : Text) (keys : List Text) → Holds keys k → Holds (key ∷ keys) k
unfolding one_of
Holds-tail key k keys h = ground (arith, h)

All-Extends :
    (old new : List Text) (keys : List Text)
    → Extends old new
    → All (Holds old) keys
    → All (Holds new) keys
All-Extends old new [] e h = tt
All-Extends old new (k ∷ keys) e h = (e k h.0, All-Extends old new keys e h.1)

finish-Completes :
    (nodes : List FlatPlannedNode) (key : Text) (m : Marks) (r : Bool × Marks)
    → Completes nodes (λ c. All (Holds c) (dependencies nodes key)) m r
    → Completes nodes (λ c. Holds c key) m (finish key r)
finish-Completes nodes key m (false, n) h o e = cc
finish-Completes nodes key m (true, n) h o e =
    let done = h o refl in
    (
      Holds-head key n.complete,
      (done.0, done.1),
      λ k held. Holds-tail key k n.complete (done.2 k held),
    )

rest-Completes :
    (nodes : List FlatPlannedNode) (go : Marks → Bool × Marks) (key : Text) (keys : List Text)
    (m : Marks) (r : Bool × Marks)
    → Completes nodes (λ c. Holds c key) m r
    → ((n : Marks) → Completes nodes (λ c. All (Holds c) keys) n (go n))
    → Completes nodes (λ c. All (Holds c) (key ∷ keys)) m (visit_rest go r)
rest-Completes nodes go key keys m (false, n) h k o e = cc
rest-Completes nodes go key keys m (true, n) h k o e =
    let first = h o refl in
    let others = k n first.1 e in
    ((others.2 key first.0, others.0), others.1, λ x held. others.2 x (first.2 x held))

visit_all-Completes :
    (nodes : List FlatPlannedNode) (go : Text → Marks → Bool × Marks)
    → ((key : Text) (m : Marks) → Completes nodes (λ c. Holds c key) m (go key m))
    → (keys : List Text) (m : Marks)
    → Completes nodes (λ c. All (Holds c) keys) m (visit_all go keys m)
visit_all-Completes nodes go h [] m = λ o e. (tt, o, λ _ held. held)
visit_all-Completes nodes go h (key ∷ keys) m =
    rest-Completes nodes (visit_all go keys) key keys m (go key m) (h key m)
      (visit_all-Completes nodes go h keys)

-- The three ways that a visit can go.
pub visit_done :
    (fuel : ℕ) (nodes : List FlatPlannedNode) (key : Text) (m : Marks)
    → one_of m.complete key ≡ true
    → visit (suc fuel) nodes key m ≡ (true, m)
unfolding visit
visit_done fuel nodes key m h = rw (h, visit) refl

pub visit_again :
    (fuel : ℕ) (nodes : List FlatPlannedNode) (key : Text) (m : Marks)
    → one_of m.complete key ≡ false
    → one_of m.visiting key ≡ true
    → visit (suc fuel) nodes key m ≡ (false, m)
unfolding visit
visit_again fuel nodes key m h k = rw (h, k, visit) refl

-- The marks with which the dependencies of a key are visited.
abbrev pub entered : Text → Marks → Marks
entered key m = record { visiting = key ∷ m.visiting; complete = m.complete }

pub visit_enter :
    (fuel : ℕ) (nodes : List FlatPlannedNode) (key : Text) (m : Marks)
    → one_of m.complete key ≡ false
    → one_of m.visiting key ≡ false
    → visit (suc fuel) nodes key m
      ≡ finish key (visit_all (visit fuel nodes) (dependencies nodes key) (entered key m))
unfolding visit
visit_enter fuel nodes key m h k = rw (h, k, visit) refl

visit-Completes :
    (fuel : ℕ) (nodes : List FlatPlannedNode) (key : Text) (m : Marks)
    → Completes nodes (λ c. Holds c key) m (visit fuel nodes key m)
unfolding visit
visit-Completes zero nodes key m = λ o e. cc
visit-Completes (suc fuel) nodes key m =
    let Goal : Bool × Marks → Type 0 = Completes nodes (λ c. Holds c key) m in
    elim (Bool-cases (one_of m.complete key)) [
      | inl done ↦
          subst Goal (sym (visit_done fuel nodes key m done)) (λ o _. (done, o, λ _ held. held))
      | inr new ↦ elim (Bool-cases (one_of m.visiting key)) [
        | inl seen ↦ subst Goal (sym (visit_again fuel nodes key m new seen)) (λ o e. cc)
        | inr fresh ↦ subst Goal (sym (visit_enter fuel nodes key m new fresh)) (
            finish-Completes nodes key m _ (
              visit_all-Completes nodes (visit fuel nodes) (visit-Completes fuel nodes)
                (dependencies nodes key) (entered key m)))
      ]
    ]

-- How many keys were complete when a key first was.
rank : List Text → Text → ℕ
rank [] key = 0
rank (c ∷ rest) key = let older = rank rest key in if one_of rest key then older else length rest

rank_old : (c k : Text) (rest : List Text) → Holds rest k → rank (c ∷ rest) k ≡ rank rest k
unfolding rank
rank_old c k rest h = rw h refl

rank_new : (c k : Text) (rest : List Text) → one_of rest k ≡ false → rank (c ∷ rest) k ≡ length rest
unfolding rank
rank_new c k rest h = rw h refl

no_member : (key : Text) → Holds [] key → ⊥
unfolding one_of
no_member key h = cc

head_of :
    (c key : Text) (rest : List Text)
    → Holds (c ∷ rest) key
    → one_of rest key ≡ false
    → text_eq key c ≡ true
unfolding one_of
head_of c key rest h new = ground (arith, h, new)

rank_bound : (keys : List Text) (key : Text) → Holds keys key → rank keys key < length keys
rank_bound [] key h = absurd (no_member key h)
rank_bound (c ∷ rest) key h = elim (Bool-cases (one_of rest key)) [
  | inl old ↦ omega (arith, rank_old c key rest old, rank_bound rest key old)
  | inr new ↦ omega (arith, rank_new c key rest new)
]

-- Among complete keys, a dependency ranks below what depends on it.
abbrev Below : List Text → Text → Text → Type 0
Below keys key d = Holds keys d × (rank keys d < rank keys key)

All-map :
    {P Q : Text → Type 0} (keys : List Text) → ((k : Text) → P k → Q k) → All P keys → All Q keys
All-map [] f h = tt
All-map (k ∷ keys) f h = (f k h.0, All-map keys f h.1)

Ordered-Below :
    (nodes : List FlatPlannedNode) (keys : List Text) (key : Text)
    → Ordered nodes keys
    → Holds keys key
    → All (Below keys key) (dependencies nodes key)
Ordered-Below nodes [] key o h = absurd (no_member key h)
Ordered-Below nodes (c ∷ rest) key o h = elim (Bool-cases (one_of rest key)) [
  | inl old ↦
      All-map (dependencies nodes key)
        (λ d below. (
          Holds-tail c d rest below.0,
          omega (arith, rank_old c d rest below.0, rank_old c key rest old, below.1),
        ))
        (Ordered-Below nodes rest key o.1 old)
  | inr new ↦
      let same : key ≡ c = text_eq→eq key c (head_of c key rest h new) in
      All-map (dependencies nodes key)
        (λ d held. (
          Holds-tail c d rest held,
          omega (arith, rank_old c d rest held, rank_new c key rest new, rank_bound rest d held),
        ))
        (subst (λ k. All (Holds rest) (dependencies nodes k)) (sym same) o.0)
]

-- A ranking of the keys under which every dependency of a node of the plan is below the node.
abbrev pub Ranking : List FlatPlannedNode → (Text → ℕ) → Type 0
Ranking nodes height =
    All (λ key. All (λ d. height d < height key) (dependencies nodes key)) (keys_of nodes)

accepted :
    (nodes : List FlatPlannedNode)
    → validate_prerequisite_dag nodes ≡ ok tt
    → is_acyclic nodes ≡ true
unfolding validate_prerequisite_dag
accepted nodes h = elim (Bool-cases (is_acyclic nodes)) [
  | inl e ↦ e
  | inr e ↦ absurd (ground (arith, h, e))
]

searched :
    (nodes : List FlatPlannedNode)
    → is_acyclic nodes ≡ true
    → (complete : List Text) × All (Holds complete) (keys_of nodes) × Ordered nodes complete
unfolding is_acyclic
searched nodes h =
    let start : Marks = record { visiting = []; complete = [] } in
    let fuel = length nodes + 1 in
    let done =
      visit_all-Completes nodes (visit fuel nodes) (visit-Completes fuel nodes) (keys_of nodes)
        start tt h in
    ((visit_all (visit fuel nodes) (keys_of nodes) start).1.complete, done.0, done.1)

Below-Ranking :
    (nodes : List FlatPlannedNode) (complete keys : List Text)
    → Ordered nodes complete
    → All (Holds complete) keys
    → All (λ key. All (λ d. rank complete d < rank complete key) (dependencies nodes key)) keys
Below-Ranking nodes complete keys o h =
    All-map keys
      (λ key held.
        All-map (dependencies nodes key) (λ d below. below.1)
          (Ordered-Below nodes complete key o held))
      h

-- A plan that is accepted has a ranking of its keys, with every prerequisite below its node: no
-- node depends on itself, directly or through others.
pub validate_prerequisite_dag-Ranking :
    (nodes : List FlatPlannedNode)
    → validate_prerequisite_dag nodes ≡ ok tt
    → (height : Text → ℕ) × Ranking nodes height
validate_prerequisite_dag-Ranking nodes h =
    let (complete, held, ordered) = searched nodes (accepted nodes h) in
    (rank complete, Below-Ranking nodes complete (keys_of nodes) ordered held)
