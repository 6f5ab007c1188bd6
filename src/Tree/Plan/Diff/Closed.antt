-- ===== src/Tree/Plan/Diff/Closed.antt =====
-- src-tauri/src/tree/service.rs: the loop of `compute_diff` ends with a set that holds the parent
-- and the prerequisites of each of its nodes, and has fuel enough.
use rust_forge.Base.{
  ℕ, zero, suc, ◌+◌, ◌≤◌, ◌<◌, ◌⊎◌, ◌≡◌, refl, sym, ◌∙◌, subst, inl, inr, Bool, true, false, List,
  [], ◌∷◌, ◌++◌, any-append, length, All, Option, none, some, Bool-cases, if◌then◌else◌, ◌==◌,
  ==_iff, arith, All-append,
}
use rust_forge.Tree.Plan.Data.{TaskNode}
use rust_forge.Tree.Plan.Diff.{
  has_id, insert, extend, links_of, links_of_all, round, close, all_links, find_by_id, or_this,
}

abbrev pub Has : List ℕ → ℕ → Type 0
Has set id = has_id set id ≡ true

pub Has-left : (xs ys : List ℕ) (id : ℕ) → Has xs id → Has (xs ++ ys) id
Has-left xs ys id h = ground (arith, any-append (λ i. i == id) xs ys, h)

pub Has-right : (xs ys : List ℕ) (id : ℕ) → Has ys id → Has (xs ++ ys) id
Has-right xs ys id h = ground (arith, any-append (λ i. i == id) xs ys, h)

insert-head : (id : ℕ) (set : List ℕ) → Has (insert id set) id
insert-head id set = ground arith

insert-keeps : (id i : ℕ) (set : List ℕ) → Has set i → Has (insert id set) i
insert-keeps id i set h = ground arith

pub extend-keeps : (ids set : List ℕ) (i : ℕ) → Has set i → Has (extend ids set) i
extend-keeps [] set i h = h
extend-keeps (id ∷ ids) set i h = extend-keeps ids (insert id set) i (insert-keeps id i set h)

pub extend-Has : (ids set : List ℕ) → All (Has (extend ids set)) ids
extend-Has [] set = tt
extend-Has (id ∷ ids) set =
    (extend-keeps ids (insert id set) id (insert-head id set), extend-Has ids (insert id set))

insert-length : (id : ℕ) (set : List ℕ) → length set ≤ length (insert id set)
insert-length id set = ground arith

extend-length : (ids set : List ℕ) → length set ≤ length (extend ids set)
extend-length [] set = omega arith
extend-length (id ∷ ids) set =
    omega (arith, insert-length id set, extend-length ids (insert id set))

insert-same : (id : ℕ) (set : List ℕ) → length (insert id set) ≤ length set → insert id set ≡ set
insert-same id set h = elim (Bool-cases (has_id set id)) [
  | inl old ↦ rw old refl
  | inr new ↦ absurd (ground arith)
]

-- A set that does not grow is the same.
extend-same : (ids set : List ℕ) → length (extend ids set) ≤ length set → extend ids set ≡ set
extend-same [] set h = refl
extend-same (id ∷ ids) set h =
    let one : insert id set ≡ set =
      insert-same id set (omega (arith, h, extend-length ids (insert id set))) in
    extend-same ids (insert id set) (omega (arith, h, insert-length id set)) ∙ one

-- The members of a list, counted as often as they stand in it, that a set lacks.
missing : List ℕ → List ℕ → ℕ
missing [] set = 0
missing (u ∷ us) set = let rest = missing us set in if has_id set u then rest else suc rest

missing-cons : (us set : List ℕ) (id : ℕ) → missing us (id ∷ set) ≤ missing us set
unfolding missing
missing-cons [] set id = omega arith
missing-cons (u ∷ us) set id = ground (arith, missing-cons us set id)

missing_less :
    (us set : List ℕ) (id : ℕ)
    → Has us id
    → has_id set id ≡ false
    → missing us (id ∷ set) < missing us set
unfolding missing
missing_less [] set id h new = cc
missing_less (u ∷ us) set id h new = elim (Bool-cases (u == id)) [
  | inl same ↦
      let fresh : has_id set u ≡ false =
        subst (λ x. has_id set x ≡ false) (sym ((==_iff u id).0 same)) new in
      ground (arith, same, fresh, missing-cons us set id)
  | inr other ↦
      let rest : Has us id = ground arith in ground (arith, missing_less us set id rest new)
]

missing-length : (us set : List ℕ) → missing us set ≤ length us
unfolding missing
missing-length [] set = omega arith
missing-length (u ∷ us) set = ground (arith, missing-length us set)

insert-trades :
    (us : List ℕ) (id : ℕ) (set : List ℕ)
    → Has us id
    → missing us (insert id set) + length (insert id set) ≤ missing us set + length set
insert-trades us id set h = elim (Bool-cases (has_id set id)) [
  | inl old ↦ ground (arith, old)
  | inr new ↦ ground (arith, new, missing_less us set id h new)
]

-- What a set gains, the list of candidates loses.
extend-trades :
    (us ids set : List ℕ)
    → All (Has us) ids
    → missing us (extend ids set) + length (extend ids set) ≤ missing us set + length set
extend-trades us [] set h = omega arith
extend-trades us (id ∷ ids) set h =
    omega (arith, insert-trades us id set h.0, extend-trades us ids (insert id set) h.1)

-- The set holds what one more round would add.
abbrev pub IsClosed : List TaskNode → List ℕ → Type 0
IsClosed current set = All (Has set) (links_of_all current set)

pub All-Has :
    (old new ids : List ℕ)
    → ((i : ℕ) → Has old i → Has new i)
    → All (Has old) ids
    → All (Has new) ids
All-Has old new [] f h = tt
All-Has old new (i ∷ ids) f h = (f i h.0, All-Has old new ids f h.1)

pub own : (ids : List ℕ) → All (Has ids) ids
own [] = tt
own (i ∷ ids) = (ground arith, All-Has ids (i ∷ ids) ids (λ j h. ground arith) (own ids))

pub or_this-cases :
    (later : Option TaskNode) (test : Bool) (node : TaskNode)
    → (or_this later test node ≡ later) ⊎ (or_this later test node ≡ some node)
or_this-cases none true node = inr refl
or_this-cases none false node = inl refl
or_this-cases (some later) test node = inl refl

-- The links of a node that is found are candidates.
found-links :
    (current : List TaskNode) (id : ℕ)
    → All (Has (all_links current)) (links_of (find_by_id current id))
unfolding find_by_id all_links
found-links [] id = tt
found-links (node ∷ nodes) id =
    let Goal : Option TaskNode → Type 0 =
      λ found. All (Has (links_of (some node) ++ all_links nodes)) (links_of found) in
    elim (or_this-cases (find_by_id nodes id) (node.id == id) node) [
      | inl e ↦ subst Goal (sym e) (
          All-Has (all_links nodes) _ _ (Has-right (links_of (some node)) (all_links nodes))
            (found-links nodes id))
      | inr e ↦ subst Goal (sym e) (
          All-Has (links_of (some node)) _ _ (Has-left (links_of (some node)) (all_links nodes))
            (own (links_of (some node))))
    ]

snapshot-links :
    (current : List TaskNode) (snapshot : List ℕ)
    → All (Has (all_links current)) (links_of_all current snapshot)
unfolding links_of_all
snapshot-links current [] = tt
snapshot-links current (id ∷ snapshot) =
    All-append (Has (all_links current)) _ _ (found-links current id)
      (snapshot-links current snapshot)

close_done :
    (fuel : ℕ) (current : List TaskNode) (set : List ℕ)
    → (length (round current set) == length set) ≡ true
    → close (suc fuel) current set ≡ round current set
unfolding close
close_done fuel current set h = rw (h, close) refl

close_more :
    (fuel : ℕ) (current : List TaskNode) (set : List ℕ)
    → (length (round current set) == length set) ≡ false
    → close (suc fuel) current set ≡ close fuel current (round current set)
unfolding close
close_more fuel current set h = rw (h, close) refl

-- The loop keeps what it has, and ends closed.
pub close-keeps :
    (fuel : ℕ) (current : List TaskNode) (set : List ℕ) (i : ℕ)
    → Has set i
    → Has (close fuel current set) i
unfolding close round
close-keeps zero current set i h = h
close-keeps (suc fuel) current set i h =
    let next = extend (links_of_all current set) set in
    let kept = extend-keeps (links_of_all current set) set i h in
    let Goal : List ℕ → Type 0 = λ s. Has s i in
    elim (Bool-cases (length next == length set)) [
      | inl done ↦ subst Goal (sym (close_done fuel current set done)) kept
      | inr more ↦
          subst Goal (sym (close_more fuel current set more)) (close-keeps fuel current next i kept)
    ]

close-IsClosed :
    (fuel : ℕ) (current : List TaskNode) (set : List ℕ)
    → missing (all_links current) set < fuel
    → IsClosed current (close fuel current set)
unfolding round
close-IsClosed zero current set few = absurd (omega arith)
close-IsClosed (suc fuel) current set few =
    let links = links_of_all current set in
    let next = extend links set in
    let trade = extend-trades (all_links current) links set (snapshot-links current set) in
    let longer = extend-length links set in
    elim (Bool-cases (length next == length set)) [
      | inl done ↦
          let same : next ≡ set = extend-same links set (ground arith) in
          subst (IsClosed current) (sym (close_done fuel current set done ∙ same))
            (subst (λ s. All (Has s) links) same (extend-Has links set))
      | inr more ↦
          subst (IsClosed current) (sym (close_more fuel current set more))
            (close-IsClosed fuel current next (ground arith))
    ]

-- The loop has fuel enough to end closed, whatever it starts with.
pub closes :
    (current : List TaskNode) (set : List ℕ)
    → IsClosed current (close (length (all_links current) + 1) current set)
closes current set =
    let few = missing-length (all_links current) set in
    close-IsClosed (length (all_links current) + 1) current set (omega arith)
