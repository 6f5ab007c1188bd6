-- ===== src/Tree/Forest/Shape.antt =====
-- The budget of a forest, said by its size and its height.
use rust_forge.Base.{
  ℕ, ◌+◌, ◌-◌, ◌≤◌, ◌<◌, ◌≡◌, ◌⊎◌, inl, inr, refl, ◌∙◌, max, arith, leb, ◌==◌, if◌then◌else◌,
  Result, ok, err, ◌>>=◌, Bool-cases,
}
use rust_forge.Tree.Forest.{
  Forest, no_nodes, node_then, ForestError, zero_depth, too_deep, too_many, TreeShape, walk,
  validate_forest,
}

pub size : Forest → ℕ
size no_nodes = 0
size (node_then children rest) = 1 + size children + size rest

-- The number of levels.
pub height : Forest → ℕ
height no_nodes = 0
height (node_then children rest) = max (1 + height children) (height rest)

-- The depth of the deepest node, where the roots lie at a depth.
abbrev pub deepest : ℕ → Forest → ℕ
deepest depth forest = if height forest == 0 then 0 else depth + height forest - 1

abbrev pub Fits : ℕ → Forest → Type 0
Fits depth forest = (size forest ≤ 40) × (deepest depth forest ≤ 3)

abbrev pub PassesBudget : ℕ → Forest → Type 0
PassesBudget depth forest = (40 < size forest) ⊎ (3 < deepest depth forest)

-- After so many nodes that were counted before.
abbrev WalkCases : Forest → ℕ → TreeShape → Type 0
WalkCases forest depth s =
    (((s.node_count + size forest ≤ 40) × (deepest depth forest ≤ 3))
      × (walk forest depth s
          ≡ ok (record {
            node_count = s.node_count + size forest;
            max_depth = max s.max_depth (deepest depth forest);
          })))
    ⊎ (((40 < s.node_count + size forest) ⊎ (3 < deepest depth forest))
        × ((e : ForestError) × (walk forest depth s ≡ err e)))

deepest-node_then :
    (depth : ℕ) (children rest : Forest)
    → 0 < depth
    → deepest depth (node_then children rest)
      ≡ max depth (max (deepest (depth + 1) children) (deepest depth rest))
unfolding height
deepest-node_then depth children rest h = ground arith

same_shape :
    {a a' b b' : ℕ}
    → a ≡ a'
    → b ≡ b'
    → ◌≡◌ {A = Result ForestError TreeShape}
        (ok (record { node_count = a; max_depth = b }))
        (ok (record { node_count = a'; max_depth = b' }))
same_shape p q = cc

walk_cases :
    (forest : Forest) (depth : ℕ) (s : TreeShape)
    → 0 < depth
    → s.node_count ≤ 40
    → WalkCases forest depth s
unfolding walk size height ◌>>=◌
walk_cases no_nodes depth s d h =
    inl ((omega arith, omega arith), same_shape (omega arith) (omega arith))
walk_cases (node_then children rest) depth s d h =
    let deep = deepest-node_then depth children rest d in
    let started : TreeShape = record {
      node_count = s.node_count + 1;
      max_depth = max s.max_depth depth;
    } in
    elim (Bool-cases (leb depth 3)) [
      | inr below ↦ inr (inr (ground (arith, deep)), (too_deep, rw below refl))
      | inl level ↦ elim (Bool-cases (leb (s.node_count + 1) 40)) [
        | inr full ↦ inr (inl (ground arith), (too_many, rw (level, full) refl))
        | inl room ↦
            let inside : WalkCases children (depth + 1) started =
              walk_cases children (depth + 1) started (omega arith) (ground arith) in
            elim inside [
              | inr (bad, (e, failed)) ↦
                  inr (ground (arith, deep), (e, rw (level, room, failed) refl))
              | inl (good, counted) ↦
                  let after : TreeShape = record {
                    node_count = s.node_count + 1 + size children;
                    max_depth = max (max s.max_depth depth) (deepest (depth + 1) children);
                  } in
                  let later : WalkCases rest depth after =
                    walk_cases rest depth after d (omega arith) in
                  elim later [
                    | inr (bad, (e, failed)) ↦
                        inr (ground (arith, deep), (e, rw (level, room, counted, failed) refl))
                    | inl (fits, done) ↦ inl (
                      (omega arith, ground (arith, deep)),
                      rw (level, room, counted, done)
                          (same_shape (omega arith) (omega (arith, deep))),
                    )
                  ]
            ]
      ]
    ]

-- A forest whose roots lie at a depth of one or more passes with its size and the depth of its
-- deepest node where these are at most 40 and 3, and is refused where one of them is more. A root
-- depth of zero is refused.
pub validate_forest-Fits :
    (forest : Forest) (depth : ℕ)
    → ((0 < depth)
        × Fits depth forest
        × (validate_forest forest depth
            ≡ ok (record { node_count = size forest; max_depth = deepest depth forest })))
      ⊎ (((depth ≡ 0) ⊎ PassesBudget depth forest)
          × ((e : ForestError) × (validate_forest forest depth ≡ err e)))
unfolding validate_forest ◌>>=◌
validate_forest-Fits forest depth = elim (Bool-cases (depth == 0)) [
  | inl zero_root ↦ inr (inl (ground arith), (zero_depth, rw zero_root refl))
  | inr from_one ↦
      let cases : WalkCases forest depth (record { node_count = 0; max_depth = 0 }) =
        walk_cases forest depth (record { node_count = 0; max_depth = 0 }) (ground arith)
          (omega arith) in
      elim cases [
        | inl (fits, done) ↦ inl (
          ground arith,
          (omega (arith, fits), fits.1),
          rw from_one (done ∙ same_shape (omega arith) (omega arith)),
        )
        | inr (bad, (e, failed)) ↦ inr (inr (ground arith), (e, rw from_one failed))
      ]
]
