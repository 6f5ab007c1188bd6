-- ===== src/Text/Laws.antt =====
-- Laws of the text functions.
use mathlib.Core.List.{reverse, reverse-reverse, reverse-append}
use rust_forge.Base.{
  ℕ, zero, suc, ◌+◌, ◌/◌, ◌%◌, ◌<◌, ltb, ◌≡◌, refl, ◌≢◌, ap, ◌∙◌, inl, inr, Bool, true, false, not,
  List, [], ◌∷◌, ◌++◌, none, some, arith, All, Any, Option-cases, Bool-cases,
}
use rust_forge.Text.{
  Text, text_eq, one_of, lower, to_ascii_lowercase, strip_prefix, strip_suffix, starts_with,
  ends_with, decimal_from,
}

pub text_eq→eq : (s t : Text) → text_eq s t ≡ true → s ≡ t
text_eq→eq [] [] h = refl
text_eq→eq [] (d ∷ t) h = cc
text_eq→eq (c ∷ s) [] h = cc
text_eq→eq (c ∷ s) (d ∷ t) h = ground (arith, text_eq→eq s t)

pub text_eq_refl : (s : Text) → text_eq s s ≡ true
text_eq_refl [] = refl
text_eq_refl (c ∷ s) = ground (arith, text_eq_refl s)

pub text_eq-false : (s t : Text) → text_eq s t ≡ false → s ≢ t
text_eq-false s t h e = let k : text_eq s t ≡ true = rw e (text_eq_refl t) in cc

pub lower_idem : (s : Text) → to_ascii_lowercase (to_ascii_lowercase s) ≡ to_ascii_lowercase s
unfolding to_ascii_lowercase
lower_idem [] = refl
lower_idem (c ∷ s) = let head : lower (lower c) ≡ lower c = ground arith in cc (head, lower_idem s)

-- `strip_prefix` finds exactly the texts that begin with the prefix.
pub strip_prefix-append : (p s : Text) → strip_prefix p (p ++ s) ≡ some s
unfolding strip_prefix
strip_prefix-append [] s = refl
strip_prefix-append (c ∷ p) s = ground (arith, strip_prefix-append p s)

pub strip_prefix→append : (p s : Text) {r : Text} → strip_prefix p s ≡ some r → s ≡ p ++ r
unfolding strip_prefix
strip_prefix→append [] s h = ground arith
strip_prefix→append (c ∷ p) [] h = cc
strip_prefix→append (c ∷ p) (d ∷ s) {r} h = ground (arith, strip_prefix→append p s {r = r})

pub strip_suffix-append : (p s : Text) → strip_suffix p (s ++ p) ≡ some s
unfolding strip_suffix
strip_suffix-append p s =
    rw (reverse-append s p) (rw (strip_prefix-append (reverse p) (reverse s)) (rw reverse-reverse))

pub strip_suffix→append : (p s : Text) {r : Text} → strip_suffix p s ≡ some r → s ≡ r ++ p
unfolding strip_suffix
strip_suffix→append p s {r} h = elim (Option-cases (strip_prefix (reverse p) (reverse s))) [
  | inl e ↦ let k : strip_suffix p s ≡ none = rw (e, strip_suffix) refl in cc
  | inr (t, e) ↦
      let k : some (reverse t) ≡ some r = rw e at h in
      let turned : reverse (reverse s) ≡ reverse t ++ reverse (reverse p) =
        ap reverse (strip_prefix→append (reverse p) (reverse s) e) ∙ reverse-append (reverse p) t in
      let plain : s ≡ reverse t ++ p = simp reverse-reverse at turned in cc
]

-- `ends_with` is a text before the suffix.
pub ends_with→append : (p s : Text) → ends_with p s ≡ true → (r : Text) × (s ≡ r ++ p)
unfolding ends_with
ends_with→append p s h = elim (Option-cases (strip_suffix p s)) [
  | inl e ↦ let k : ends_with p s ≡ false = rw (e, ends_with) refl in cc
  | inr (r, e) ↦ (r, strip_suffix→append p s e)
]

pub ends_with-append : (p s : Text) → ends_with p (s ++ p) ≡ true
unfolding ends_with
ends_with-append p s = rw strip_suffix-append

-- Membership in a list of words.
pub one_of-Any : (ts : List Text) (s : Text) → one_of ts s ≡ true → Any (λ t. s ≡ t) ts
unfolding one_of
one_of-Any [] s h = cc
one_of-Any (t ∷ ts) s h = elim (Bool-cases (text_eq s t)) [
  | inl e ↦ inl (text_eq→eq s t e)
  | inr e ↦ inr (one_of-Any ts s (rw e at h))
]

pub one_of-All : (ts : List Text) (s : Text) → one_of ts s ≡ false → All (λ t. s ≢ t) ts
unfolding one_of
one_of-All [] s h = tt
one_of-All (t ∷ ts) s h =
    let parts : (text_eq s t ≡ false) × (one_of ts s ≡ false) = ground arith in
    (text_eq-false s t parts.0, one_of-All ts s parts.1)

pub Any-one_of : (ts : List Text) (s : Text) → Any (λ t. s ≡ t) ts → one_of ts s ≡ true
unfolding one_of
Any-one_of [] s h = absurd h
Any-one_of (t ∷ ts) s (inl e) = rw e (rw text_eq_refl)
Any-one_of (t ∷ ts) s (inr h) = let later = Any-one_of ts s h in ground arith

pub not-eq-true : (b : Bool) → not b ≡ true → b ≡ false
not-eq-true b h = ground arith

-- `starts_with` is a text after the prefix.
pub starts_with→append : (p s : Text) → starts_with p s ≡ true → (r : Text) × (s ≡ p ++ r)
unfolding starts_with
starts_with→append p s h = elim (Option-cases (strip_prefix p s)) [
  | inl e ↦ let k : starts_with p s ≡ false = rw (e, starts_with) refl in cc
  | inr (r, e) ↦ (r, strip_prefix→append p s e)
]

pub starts_with-append : (p s : Text) → starts_with p (p ++ s) ≡ true
unfolding starts_with
starts_with-append p s = rw strip_prefix-append

-- With more fuel than the number a number is printed to its last digit: more fuel changes nothing.
decimal_fuel :
    (fuel n : ℕ) (acc : Text) → n < fuel → decimal_from (suc fuel) n acc ≡ decimal_from fuel n acc
unfolding decimal_from
decimal_fuel zero n acc h = absurd (omega arith)
decimal_fuel (suc fuel) n acc h = elim (Bool-cases (ltb n 10)) [
  | inl last ↦ rw last refl
  | inr more ↦
      let smaller : n / 10 < fuel = ground arith in
      rw more (decimal_fuel fuel (n / 10) ((b'0' + n % 10) ∷ acc) smaller)
]
