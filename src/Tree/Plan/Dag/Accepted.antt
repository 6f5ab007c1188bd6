-- ===== src/Tree/Plan/Dag/Accepted.antt =====
-- What is acyclic is accepted by `validate_prerequisite_dag`: a plan whose keys have a ranking never
-- meets a key that is being visited, and never runs out of fuel.
use rust_forge.Base.{
  ◌↔◌, ℕ, zero, suc, ◌+◌, ◌≤◌, ◌<◌, ◌≡◌, refl, sym, ◌∙◌, ap, subst, inl, inr, Bool, true, false,
  List, [], ◌∷◌, length, All, ok, guard, Bool-cases, Option-cases, or-eq-false, if◌then◌else◌,
  arith, none, some,
}
use rust_forge.Text.{Text, text_eq, one_of}
use rust_forge.Text.Laws.{text_eq→eq, text_eq_refl}
use rust_forge.Tree.Plan.Data.{FlatPlannedNode}
use rust_forge.Tree.Plan.Dag.{
  Marks, dependencies, flat, or_this, find_edges, remove, finish, visit_rest, visit_all, visit,
  keys_of, is_acyclic, validate_prerequisite_dag, cyclic_prerequisites,
}
use rust_forge.Tree.Plan.Dag.Ranked.{
  validate_prerequisite_dag-Ranking, Ranking, entered, visit_done, visit_enter,
}

-- The nodes whose key is not being visited.
unvisited : List FlatPlannedNode → List Text → ℕ
unvisited [] visiting = 0
unvisited (item ∷ nodes) visiting =
    let rest = unvisited nodes visiting in
    if one_of visiting item.node.stable_key then rest else suc rest

unvisited-length :
    (nodes : List FlatPlannedNode) (visiting : List Text) → unvisited nodes visiting ≤ length nodes
unfolding unvisited
unvisited-length [] visiting = omega arith
unvisited-length (item ∷ nodes) visiting = ground (arith, unvisited-length nodes visiting)

unvisited-cons :
    (nodes : List FlatPlannedNode) (visiting : List Text) (key : Text)
    → unvisited nodes (key ∷ visiting) ≤ unvisited nodes visiting
unfolding unvisited one_of
unvisited-cons [] visiting key = omega arith
unvisited-cons (item ∷ nodes) visiting key = ground (arith, unvisited-cons nodes visiting key)

or_this_same :
    (key : Text) (item : FlatPlannedNode) (keys : List Text)
    → or_this none key item ≡ some keys
    → text_eq item.node.stable_key key ≡ true
or_this_same key item keys h = elim (Bool-cases (text_eq item.node.stable_key key)) [
  | inl e ↦ e
  | inr e ↦ let k : none ≡ some keys = rw e at h in cc k
]

text_eq_swap : (s t : Text) → text_eq s t ≡ false → text_eq t s ≡ false
text_eq_swap s t h = elim (Bool-cases (text_eq t s)) [
  | inr e ↦ e
  | inl e ↦
      absurd
        (ground (arith, h, subst (λ x. text_eq x t ≡ true) (text_eq→eq t s e) (text_eq_refl t)))
]

unvisited_less :
    (nodes : List FlatPlannedNode) (visiting : List Text) (key : Text) (keys : List Text)
    → find_edges nodes key ≡ some keys
    → one_of visiting key ≡ false
    → unvisited nodes (key ∷ visiting) < unvisited nodes visiting
unfolding unvisited find_edges one_of
unvisited_less [] visiting key keys h fresh = cc
unvisited_less (item ∷ nodes) visiting key keys h fresh =
    elim (Option-cases (find_edges nodes key)) [
      | inr (later, e) ↦ ground (arith, unvisited_less nodes visiting key later e fresh)
      | inl e ↦
          let same = or_this_same key item keys (rw e at h) in
          let new : one_of visiting item.node.stable_key ≡ false =
            subst (λ k. one_of visiting k ≡ false) (sym (text_eq→eq _ _ same)) fresh in
          ground (arith, same, new, unvisited-cons nodes visiting key)
    ]

module _ (nodes : List FlatPlannedNode) (height : Text → ℕ) where
  enough :
      (visiting other : List Text) (fuel : ℕ)
      → visiting ≡ other
      → unvisited nodes other < fuel
      → unvisited nodes visiting < fuel
  enough visiting other fuel e h = subst (λ v. unvisited nodes v < fuel) (sym e) h

  abbrev Descends : Text → Type 0
  Descends key = All (λ d. height d < height key) (dependencies nodes key)

  -- The key ranks below all that are being visited.
  abbrev IsUnder : List Text → Text → Type 0
  IsUnder visiting key = All (λ v. height key < height v) visiting

  abbrev Succeeds : Marks → Bool × Marks → Type 0
  Succeeds m r = (r.0 ≡ true) × (r.1.visiting ≡ m.visiting)

  fresh_under :
      (visiting : List Text) (key : Text) → IsUnder visiting key → one_of visiting key ≡ false
  unfolding one_of
  fresh_under [] key h = refl
  fresh_under (v ∷ visiting) key h =
      let other : text_eq key v ≡ false = elim (Bool-cases (text_eq key v)) [
        | inr e ↦ e
        | inl e ↦ absurd (omega (arith, h.0, ap height (text_eq→eq key v e)))
      ] in
      ground (arith, other, fresh_under visiting key h.1)

  remove_absent :
      (visiting : List Text) (key : Text)
      → one_of visiting key ≡ false
      → remove key visiting ≡ visiting
  unfolding one_of
  remove_absent [] key h = refl
  remove_absent (v ∷ visiting) key h =
      let parts = or-eq-false (text_eq key v) (one_of visiting key) h in
      let rest = remove_absent visiting key parts.1 in
      let other = text_eq_swap key v parts.0 in rw other (ap (λ l. v ∷ l) rest)

  remove_head :
      (visiting : List Text) (key : Text)
      → one_of visiting key ≡ false
      → remove key (key ∷ visiting) ≡ visiting
  remove_head visiting key fresh = rw (text_eq_refl key) (remove_absent visiting key fresh)

  IsUnder-head :
      (key d : Text) (visiting : List Text)
      → height d < height key
      → IsUnder visiting key
      → IsUnder visiting d
  IsUnder-head key d [] less under = tt
  IsUnder-head key d (v ∷ visiting) less under =
      (omega (arith, less, under.0), IsUnder-head key d visiting less under.1)

  finish-Succeeds :
      (key : Text) (m : Marks) (r : Bool × Marks)
      → one_of m.visiting key ≡ false
      → Succeeds (entered key m) r
      → Succeeds m (finish key r)
  finish-Succeeds key m (false, n) fresh h = cc (h.0)
  finish-Succeeds key m (true, n) fresh h =
      (refl, ap (remove key) h.1 ∙ remove_head m.visiting key fresh)

  rest-Succeeds :
      (go : Marks → Bool × Marks) (m : Marks) (r : Bool × Marks)
      → Succeeds m r
      → ((n : Marks) → n.visiting ≡ m.visiting → Succeeds n (go n))
      → Succeeds m (visit_rest go r)
  rest-Succeeds go m (false, n) h k = cc (h.0)
  rest-Succeeds go m (true, n) h k = let done = k n h.1 in (done.0, done.1 ∙ h.1)

  visit_all-Succeeds :
      (go : Text → Marks → Bool × Marks) (visiting : List Text) (keys : List Text)
      → All (λ key. (m : Marks) → m.visiting ≡ visiting → Succeeds m (go key m)) keys
      → (m : Marks) → m.visiting ≡ visiting
      → Succeeds m (visit_all go keys m)
  visit_all-Succeeds go visiting [] h m e = (refl, refl)
  visit_all-Succeeds go visiting (key ∷ keys) h m e =
      rest-Succeeds (visit_all go keys) m (go key m) (h.0 m e)
        (λ n same. visit_all-Succeeds go visiting keys h.1 n (same ∙ e))

  -- What is left to show of a key that is entered, for each of its dependencies.
  entered-Succeeds :
      (go : Text → Marks → Bool × Marks) (key : Text) (m : Marks)
      → IsUnder m.visiting key
      → ((d : Text) (n : Marks)
          → IsUnder n.visiting d
          → n.visiting ≡ key ∷ m.visiting
          → Succeeds n (go d n))
      → (keys : List Text) → All (λ d. height d < height key) keys
      → All (λ d. (n : Marks) → n.visiting ≡ key ∷ m.visiting → Succeeds n (go d n)) keys
  entered-Succeeds go key m under each [] less = tt
  entered-Succeeds go key m under each (d ∷ keys) less = (
    λ n e.
        each d n
          (subst (λ visiting. IsUnder visiting d) (sym e)
            (less.0, IsUnder-head key d m.visiting less.0 under))
          e,
    entered-Succeeds go key m under each keys less.1,
  )

  module _ (falls : (key : Text) → Descends key) where
    visit-Succeeds :
        (fuel : ℕ) (key : Text) (m : Marks)
        → IsUnder m.visiting key
        → unvisited nodes m.visiting < fuel
        → Succeeds m (visit fuel nodes key m)
    visit-Succeeds zero key m under few = absurd (omega arith)
    visit-Succeeds (suc fuel) key m under few =
        let fresh = fresh_under m.visiting key under in
        let Goal : List Text → Type 0 =
          λ keys. Succeeds (entered key m) (visit_all (visit fuel nodes) keys (entered key m)) in
        let inner : Goal (dependencies nodes key) = elim (Option-cases (find_edges nodes key)) [
          | inl gap ↦ subst Goal (sym (ap flat gap)) (refl, refl)
          | inr (keys, e) ↦
              let less = unvisited_less nodes m.visiting key keys e fresh in
              visit_all-Succeeds (visit fuel nodes) (key ∷ m.visiting) (dependencies nodes key)
                (entered-Succeeds (visit fuel nodes) key m under
                  (λ d n below same.
                    visit-Succeeds fuel d n below
                      (enough n.visiting (key ∷ m.visiting) fuel same (omega arith)))
                  (dependencies nodes key) (falls key))
                (entered key m) refl
        ] in
        elim (Bool-cases (one_of m.complete key)) [
          | inl done ↦ subst (Succeeds m) (sym (visit_done fuel nodes key m done)) (refl, refl)
          | inr new ↦
              subst (Succeeds m) (sym (visit_enter fuel nodes key m new fresh))
                (finish-Succeeds key m _ fresh inner)
        ]

at_key :
    (P : Text → Type 0) (nodes : List FlatPlannedNode) (key : Text) (keys : List Text)
    → All P (keys_of nodes)
    → find_edges nodes key ≡ some keys
    → P key
unfolding find_edges
at_key P [] key keys h e = cc
at_key P (item ∷ nodes) key keys h e = elim (Option-cases (find_edges nodes key)) [
  | inr (later, found) ↦ at_key P nodes key later h.1 found
  | inl gap ↦
      let same = or_this_same key item keys (rw gap at e) in subst P (text_eq→eq _ _ same) h.0
]

all_descend :
    (nodes : List FlatPlannedNode) (height : Text → ℕ)
    → Ranking nodes height
    → (key : Text) → Descends nodes height key
all_descend nodes height h key = elim (Option-cases (find_edges nodes key)) [
  | inl gap ↦ subst (λ o. All (λ d. height d < height key) (flat o)) (sym gap) tt
  | inr (keys, found) ↦ at_key (Descends nodes height) nodes key keys h found
]

each_key :
    (nodes : List FlatPlannedNode) (height : Text → ℕ) (keys : List Text)
    → ((key : Text) → Descends nodes height key)
    → All
        (λ key.
          (m : Marks)
          → m.visiting ≡ []
          → Succeeds nodes height m (visit (length nodes + 1) nodes key m))
        keys
each_key nodes height [] falls = tt
each_key nodes height (key ∷ keys) falls = (
  λ m e.
      visit-Succeeds nodes height falls (length nodes + 1) key m
        (subst (λ visiting. IsUnder nodes height visiting key) (sym e) tt)
        (let few = unvisited-length nodes m.visiting in omega arith),
  each_key nodes height keys falls,
)

-- A plan whose keys have a ranking, with every prerequisite below its node, is accepted: the
-- search finds no cycle where there is none, and its fuel is enough.
pub Ranking-validate_prerequisite_dag :
    (nodes : List FlatPlannedNode) (height : Text → ℕ)
    → Ranking nodes height
    → validate_prerequisite_dag nodes ≡ ok tt
unfolding validate_prerequisite_dag is_acyclic
Ranking-validate_prerequisite_dag nodes height h =
    let done =
      visit_all-Succeeds nodes height (visit (length nodes + 1) nodes) [] (keys_of nodes)
        (each_key nodes height (keys_of nodes) (all_descend nodes height h))
        (record { visiting = []; complete = [] }) refl in
    ap (λ t. guard t cyclic_prerequisites) done.0

-- The search accepts exactly the acyclic plans: those with a ranking of the keys in which every
-- prerequisite that the plan gives for a key is below that key.
pub validate_prerequisite_dag_iff :
    (nodes : List FlatPlannedNode)
    → (validate_prerequisite_dag nodes ≡ ok tt) ↔ ((height : Text → ℕ) × Ranking nodes height)
validate_prerequisite_dag_iff nodes = (
  validate_prerequisite_dag-Ranking nodes,
  λ ranked. Ranking-validate_prerequisite_dag nodes ranked.0 ranked.1,
)
