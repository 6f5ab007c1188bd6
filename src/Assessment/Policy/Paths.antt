-- ===== src/Assessment/Policy/Paths.antt =====
-- The prefix test on paths, said without the matcher.
use rust_forge.Base.{
  ◌≡◌, refl, ap, ◌∙◌, ◌⊎◌, inl, inr, true, false, List, [], ◌∷◌, ◌++◌, some, Option-cases, arith,
  any, All, Bool-cases,
}
use rust_forge.Text.{Text, codes, text_eq, strip_prefix, starts_with}
use rust_forge.Text.Laws.{
  text_eq→eq, text_eq_refl, strip_prefix-append, strip_prefix→append, starts_with→append,
  starts_with-append,
}
use rust_forge.Assessment.Policy.{path_matches_prefix}

-- The path is the excluded path or lies below it; `/` excludes every path.
abbrev pub UnderPath : Text → Text → Type 0
UnderPath excluded path =
    (excluded ≡ codes "/")
    ⊎ (path ≡ excluded)
    ⊎ ((rest : Text) × (path ≡ excluded ++ (b'/' ∷ rest)))

pub UnderPath-matches :
    (path excluded : Text) → UnderPath excluded path → path_matches_prefix path excluded ≡ true
unfolding path_matches_prefix
UnderPath-matches path excluded (inl e) = rw e (ground arith)
UnderPath-matches path excluded (inr (inl e)) = rw e (rw text_eq_refl (ground arith))
UnderPath-matches path excluded (inr (inr (rest, e))) =
    let stripped : strip_prefix excluded path ≡ some (b'/' ∷ rest) =
      rw e (strip_prefix-append excluded (b'/' ∷ rest)) in
    let below : starts_with (codes "/") (b'/' ∷ rest) ≡ true =
      starts_with-append (codes "/") rest in
    rw stripped (rw below (ground arith))

pub matches-UnderPath :
    (path excluded : Text) → path_matches_prefix path excluded ≡ true → UnderPath excluded path
unfolding path_matches_prefix
matches-UnderPath path excluded h = elim (Bool-cases (text_eq excluded (codes "/"))) [
  | inl e ↦ inl (text_eq→eq excluded _ e)
  | inr e ↦ elim (Bool-cases (text_eq path excluded)) [
    | inl f ↦ inr (inl (text_eq→eq path _ f))
    | inr f ↦ elim (Option-cases (strip_prefix excluded path)) [
      | inl g ↦ let k : false ≡ true = rw (e, f, g) at h in cc
      | inr (r, g) ↦
          let below : starts_with (codes "/") r ≡ true = rw (e, f, g) at h in
          let (rest, e') = starts_with→append (codes "/") r below in
          inr (inr (rest, strip_prefix→append excluded path g ∙ ap (λ t. excluded ++ t) e'))
    ]
  ]
]

-- No excluded path of the list is the path or lies above it.
pub no_match-All :
    (path : Text) (paths : List Text)
    → any (path_matches_prefix path) paths ≡ false
    → All (λ excluded. ¬ UnderPath excluded path) paths
no_match-All path [] h = tt
no_match-All path (e ∷ paths) h =
    let parts : (path_matches_prefix path e ≡ false)
        × (any (path_matches_prefix path) paths ≡ false) =
      ground arith in
    ((λ u. cc (parts.0, UnderPath-matches path e u)), no_match-All path paths parts.1)

pub All-no_match :
    (path : Text) (paths : List Text)
    → All (λ excluded. ¬ UnderPath excluded path) paths
    → any (path_matches_prefix path) paths ≡ false
All-no_match path [] h = refl
All-no_match path (e ∷ paths) (free, rest) = elim (Bool-cases (path_matches_prefix path e)) [
  | inl m ↦ absurd (free (matches-UnderPath path e m))
  | inr m ↦ rw m (All-no_match path paths rest)
]
