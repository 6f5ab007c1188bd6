-- ===== src/Tree/State/Moves.antt =====
-- The moves of a task between its statuses.
use rust_forge.Base.{
  ◌≡◌, ◌≢◌, refl, subst, ◌⊎◌, inl, inr, Bool, true, false, not, ◌&&◌, ◌||◌, List, [], ◌∷◌, any, all,
  Any, all-at, Bool-cases, and-eq-true,
}
use rust_forge.Text.{Text, codes, text_eq, one_of}
use rust_forge.Text.Laws.{text_eq→eq}
use rust_forge.Tree.State.{statuses, is_terminal, transitions, is_pair, can_transition}

-- A move is a row of the table.
Any-is_pair :
    (from to : Text) (ps : List (Text × Text))
    → any (is_pair from to) ps ≡ true
    → Any (λ p. (from, to) ≡ p) ps
Any-is_pair from to [] h = cc
Any-is_pair from to (p ∷ ps) h = elim (Bool-cases (is_pair from to p)) [
  | inl e ↦
      let parts = and-eq-true (text_eq from p.0) (text_eq to p.1) e in
      inl (cc (text_eq→eq from p.0 parts.0, text_eq→eq to p.1 parts.1))
  | inr e ↦
      let rest : any (is_pair from to) ps ≡ true = rw e at h in inr (Any-is_pair from to ps rest)
]

row_of : (from to : Text) → can_transition from to ≡ true → Any (λ p. (from, to) ≡ p) transitions
unfolding can_transition
row_of from to h = elim (Bool-cases (text_eq from to || not (one_of statuses to))) [
  | inl e ↦ let k : false ≡ true = rw e at h in cc
  | inr e ↦
      let k : any (is_pair from to) transitions ≡ true = rw e at h in
      Any-is_pair from to transitions k
]

-- What holds of each row of the table holds of each move.
move_has :
    (check : Text × Text → Bool) (from to : Text)
    → all check transitions ≡ true
    → can_transition from to ≡ true
    → check (from, to) ≡ true
move_has check from to rows h = all-at check (from, to) transitions rows (row_of from to h)

-- The moves of a task, from one status to another.
pub data Moves (from : Text) : Text → Type 0 where
  stay : Moves from from
  move : {via to : Text} → Moves from via → can_transition via to ≡ true → Moves from to

-- A status that the task had on its way.
pub Visits : (status : Text) {from to : Text} → Moves from to → Type 0
Visits status {from} stay = from ≡ status
Visits status {to = to} (move ms _) = (to ≡ status) ⊎ Visits status ms

Visits-last : {from to : Text} (ms : Moves from to) → Visits to ms
unfolding Visits
Visits-last stay = refl
Visits-last (move ms _) = inl refl

abbrev enters_done : Text × Text → Bool
enters_done p = not (text_eq p.1 (codes "done")) || text_eq p.0 (codes "in_progress")

before_done :
    (from to : Text)
    → can_transition from to ≡ true
    → to ≡ codes "done"
    → from ≡ codes "in_progress"
before_done from to h e =
    let checked : enters_done (from, to) ≡ true = move_has enters_done from to refl h in
    text_eq→eq from _ (rw e at checked)

-- A task that is done and was not done at first has been in progress on its way, whatever its moves.
pub done-Visits :
    (from to : Text) (ms : Moves from to)
    → to ≡ codes "done"
    → from ≢ to
    → Visits (codes "in_progress") ms
unfolding Visits
done-Visits from _ stay e n = absurd (n refl)
done-Visits from to (move {via} ms h) e n =
    inr (subst (λ s. Visits s ms) (before_done via to h e) (Visits-last ms))

abbrev reopens : Text × Text → Bool
reopens p =
    not (one_of (codes "done" ∷ codes "skipped" ∷ codes "not_applicable" ∷ []) p.0)
    || text_eq p.1 (codes "todo")
    || (text_eq p.0 (codes "skipped") && text_eq p.1 (codes "not_applicable"))

-- A terminal status is left for `todo` alone, or from `skipped` for `not_applicable`.
pub terminal_moves :
    (from to : Text)
    → is_terminal from ≡ true
    → can_transition from to ≡ true
    → (to ≡ codes "todo") ⊎ ((from ≡ codes "skipped") × (to ≡ codes "not_applicable"))
unfolding is_terminal one_of
terminal_moves from to t h =
    let checked : reopens (from, to) ≡ true = move_has reopens from to refl h in
    let either : (text_eq to (codes "todo")
          || (text_eq from (codes "skipped") && text_eq to (codes "not_applicable")))
        ≡ true =
      rw t at checked in
    elim (Bool-cases (text_eq to (codes "todo"))) [
      | inl e ↦ inl (text_eq→eq to _ e)
      | inr e ↦
          let both = and-eq-true _ _ (rw e at either) in
          inr (text_eq→eq from _ both.0, text_eq→eq to _ both.1)
    ]
