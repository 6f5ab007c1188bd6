-- ===== src/Ai/Json/Starts.antt =====
-- src-tauri/src/ai/json_balanced.rs: where `json_candidate_starts` finds brackets, and the text of a group.
use mathlib.Core.List.{append_assoc}
use rust_forge.Base.{
  ℕ, ◌+◌, ◌-◌, ◌≡◌, ◌≢◌, refl, ap, sym, ◌∙◌, true, false, List, [], ◌∷◌, ◌++◌, arith, length,
  length-append, take, drop, ◌==◌,
}
use rust_forge.Ai.Json.{fragment, inside, outside, in_quote, is_open, starts_from}
use rust_forge.Ai.Json.Balanced.{Quoted, last_quote, escape, plain, Brackets, braces, square}

pub not_quote : (o c : ℕ) → Brackets o c → o ≢ b'"'
not_quote _ _ braces = omega arith
not_quote _ _ square = omega arith

pub opens_group : (o c : ℕ) → Brackets o c → is_open o ≡ true
opens_group _ _ braces = refl
opens_group _ _ square = refl

pub starts_from-open :
    (c : ℕ) (rest : List ℕ) (index : ℕ)
    → c ≢ b'"'
    → is_open c ≡ true
    → starts_from (c ∷ rest) index outside ≡ index ∷ starts_from rest (index + 1) outside
unfolding starts_from
starts_from-open c rest index other opens =
    let e : (c == b'"') ≡ false = ground arith in rw opens (rw e refl)

pub starts_from-plain :
    (c : ℕ) (rest : List ℕ) (index : ℕ)
    → c ≢ b'"'
    → is_open c ≡ false
    → starts_from (c ∷ rest) index outside ≡ starts_from rest (index + 1) outside
unfolding starts_from
starts_from-plain c rest index other shut =
    let e : (c == b'"') ≡ false = ground arith in rw shut (rw e refl)

-- The rest of a string literal has no starts.
starts_from-Quoted :
    (q rest : List ℕ) (index : ℕ)
    → Quoted q
    → starts_from (q ++ rest) index inside ≡ starts_from rest (index + length q) outside
unfolding starts_from in_quote
starts_from-Quoted _ rest index last_quote = refl
starts_from-Quoted _ rest index (escape {c} {s} q) =
    starts_from-Quoted s rest (index + 1 + 1) q ∙ ap (λ k. starts_from rest k outside) (omega arith)
starts_from-Quoted _ rest index (plain {c} {s} a b q) =
    let e : (c == b'\\') ≡ false = ground arith in
    let f : (c == b'"') ≡ false = ground arith in
    rw (e, f)
      (starts_from-Quoted s rest (index + 1) q ∙ ap (λ k. starts_from rest k outside) (omega arith))

pub starts_from-literal :
    (q s rest : List ℕ) (index : ℕ)
    → Quoted q
    → starts_from (b'"' ∷ (q ++ s) ++ rest) index outside
      ≡ starts_from (s ++ rest) (index + 1 + length q) outside
unfolding starts_from
starts_from-literal q s rest index quoted =
    ap (λ t. starts_from t (index + 1) inside) (append_assoc q s rest)
    ∙ starts_from-Quoted q (s ++ rest) (index + 1) quoted

take_all : (xs ys : List ℕ) → take (length xs) (xs ++ ys) ≡ xs
take_all [] ys = refl
take_all (x ∷ xs) ys = ap (λ t. x ∷ t) (take_all xs ys)

drop_all : (xs ys : List ℕ) → drop (length xs) (xs ++ ys) ≡ ys
drop_all [] ys = refl
drop_all (x ∷ xs) ys = drop_all xs ys

-- A group of brackets that stands after some text, as the fragment from its start to its end.
pub fragment_of_group :
    (front s rest : List ℕ) (o c : ℕ)
    → fragment (front ++ (o ∷ s ++ (c ∷ rest))) (length front) (length front + length s + 2)
      ≡ o ∷ s ++ (c ∷ [])
fragment_of_group front s rest o c =
    let group = o ∷ s ++ (c ∷ []) in
    let size : length front + length s + 2 - length front ≡ length group =
      omega (arith, length-append s (c ∷ [])) in
    let split : o ∷ s ++ (c ∷ rest) ≡ group ++ rest =
      ap (λ t. o ∷ t) (sym (append_assoc s (c ∷ []) rest)) in
    rw size (
      ap (take (length group)) (drop_all front (o ∷ s ++ (c ∷ rest)) ∙ split) ∙ take_all group rest)
