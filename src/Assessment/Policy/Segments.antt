-- ===== src/Assessment/Policy/Segments.antt =====
-- src-tauri/src/assessment/policy.rs: a destructive word cannot hide behind encodings of a path segment.
use rust_forge.Base.{
  ℕ, ◌≤◌, ◌≡◌, refl, ap, sym, ◌∙◌, inl, inr, Bool, ◌&&◌, List, [], ◌∷◌, some, arith, true, false,
  any, all, All, Any, All-at, all-at, any-append, map, if◌then◌else◌,
}
use rust_forge.Text.{
  Text, flat_map, trim, trim_end_matches, trim_start_matches, is_whitespace, split, cons_head,
  is_empty, lower, one_char_of, one_of, to_ascii_lowercase,
}
use rust_forge.Authorization.Url.{UrlLib}
use rust_forge.Assessment.Policy.{
  builtin_excluded_segments, segment_words, is_destructive, path_has_destructive_segment,
}
use rust_forge.Assessment.Policy.Percent.{percent_decode_repeatedly}
use rust_forge.Assessment.Policy.Decoding.{IsPlain, percent_decode_repeatedly-iterate}
use rust_forge.Assessment.Policy.Encoded.{EncodedTimes, iterate-EncodedTimes}

abbrev words_of : Text → List Text
words_of text =
    map (λ v. to_ascii_lowercase (trim v)) (split (one_char_of (b'/' ∷ b'\\' ∷ b';' ∷ [])) text)

-- Every destructive word is plain, and is found where it stands by itself.
builtin_found : all (λ w. any is_destructive (words_of w)) builtin_excluded_segments ≡ true
unfolding is_destructive one_of to_ascii_lowercase trim trim_end_matches trim_start_matches
    is_whitespace split one_char_of
builtin_found = refl

builtin-IsPlain : All IsPlain builtin_excluded_segments
builtin-IsPlain = omega arith

-- The words of a text do not depend on the case of its letters.
split-map :
    (p : ℕ → Bool) (f : ℕ → ℕ)
    → ((c : ℕ) → p (f c) ≡ p c)
    → (s : Text) → split p (map f s) ≡ map (map f) (split p s)
unfolding split
split-map p f same [] = refl
split-map p f same (c ∷ s) = rw (same c) (rw (split-map p f same s) (heads (p c) (split p s)))
  where
    heads :
        (t : Bool) (ws : List Text)
        → (if t then [] ∷ map (map f) ws else cons_head (f c) (map (map f) ws))
          ≡ map (map f) (if t then [] ∷ ws else cons_head c ws)
    heads true ws = refl
    heads false [] = refl
    heads false (w ∷ ws) = refl

lower-separates :
    (c : ℕ)
    → one_char_of (b'/' ∷ b'\\' ∷ b';' ∷ []) (lower c) ≡ one_char_of (b'/' ∷ b'\\' ∷ b';' ∷ []) c
unfolding one_char_of
lower-separates c = ground arith

lower-blank : (c : ℕ) → is_whitespace (lower c) ≡ is_whitespace c
unfolding is_whitespace
lower-blank c = ground arith

if-lower :
    (t : Bool) (a b : Text) (c : ℕ) (s : Text)
    → a ≡ map lower b
    → (if t then a else lower c ∷ map lower s) ≡ map lower (if t then b else c ∷ s)
if-lower true a b c s h = h
if-lower false a b c s h = refl

trim_start-lower :
    (s : Text)
    → trim_start_matches is_whitespace (map lower s)
      ≡ map lower (trim_start_matches is_whitespace s)
unfolding trim_start_matches
trim_start-lower [] = refl
trim_start-lower (c ∷ s) =
    rw (lower-blank c) (if-lower (is_whitespace c) _ _ c s (trim_start-lower s))

is_empty-map : (s : Text) → is_empty (map lower s) ≡ is_empty s
is_empty-map [] = refl
is_empty-map (c ∷ s) = refl

trim_end-lower :
    (s : Text)
    → trim_end_matches is_whitespace (map lower s) ≡ map lower (trim_end_matches is_whitespace s)
unfolding trim_end_matches
trim_end-lower [] = refl
trim_end-lower (c ∷ s) =
    let rest = trim_end_matches is_whitespace s in
    rw (lower-blank c) (
      rw (trim_end-lower s)
        (rw (is_empty-map rest) (if-lower (is_whitespace c && is_empty rest) [] [] c rest refl)))

trim-lower : (s : Text) → trim (map lower s) ≡ map lower (trim s)
unfolding trim
trim-lower s =
    ap (trim_end_matches is_whitespace) (trim_start-lower s)
    ∙ trim_end-lower (trim_start_matches is_whitespace s)

lower_twice : (c : ℕ) → lower (lower c) ≡ lower c
lower_twice c = ground arith

map-lower_twice : (s : Text) → map lower (map lower s) ≡ map lower s
map-lower_twice [] = refl
map-lower_twice (c ∷ s) = rw (lower_twice c) (ap (λ t. lower c ∷ t) (map-lower_twice s))

lower_words :
    (ws : List Text)
    → map (λ v. to_ascii_lowercase (trim v)) (map (map lower) ws)
      ≡ map (λ v. to_ascii_lowercase (trim v)) ws
unfolding to_ascii_lowercase
lower_words [] = refl
lower_words (w ∷ ws) =
    rw (trim-lower w)
      (rw (map-lower_twice (trim w)) (ap (λ t. map lower (trim w) ∷ t) (lower_words ws)))

words_of-lower : (s : Text) → words_of (to_ascii_lowercase s) ≡ words_of s
unfolding to_ascii_lowercase
words_of-lower s =
    let sep = one_char_of (b'/' ∷ b'\\' ∷ b';' ∷ []) in
    ap (map (λ v. to_ascii_lowercase (trim v))) (split-map sep lower lower-separates s)
    ∙ lower_words (split sep s)

lower-IsPlain : (s : Text) → IsPlain (to_ascii_lowercase s) → IsPlain s
unfolding to_ascii_lowercase
lower-IsPlain [] h = tt
lower-IsPlain (c ∷ s) h = (ground (arith, h.0), lower-IsPlain s h.1)

-- The text is a destructive word in letters of any case.
abbrev pub IsDestructiveWord : Text → Type 0
IsDestructiveWord word = Any (λ w. to_ascii_lowercase word ≡ w) builtin_excluded_segments

segment_found :
    (k : ℕ) (word segment : Text)
    → k ≤ 3
    → IsDestructiveWord word
    → EncodedTimes k word segment
    → any is_destructive (segment_words segment) ≡ true
unfolding segment_words
segment_found k word segment h m written =
    let small = to_ascii_lowercase word in
    let plain : IsPlain small = All-at IsPlain small builtin_excluded_segments builtin-IsPlain m in
    let read : percent_decode_repeatedly segment ≡ word =
      percent_decode_repeatedly-iterate segment
      ∙ iterate-EncodedTimes 3 k word segment h (lower-IsPlain word plain) written in
    rw read (
      ap (any is_destructive) (sym (words_of-lower word))
      ∙ all-at (λ v. any is_destructive (words_of v)) small builtin_excluded_segments builtin_found
          m)

any-flat_map :
    (p : Text → Bool) (f : Text → List Text) (t : Text) (ts : List Text)
    → any p (f t) ≡ true
    → Any (λ s. s ≡ t) ts
    → any p (flat_map f ts) ≡ true
any-flat_map p f t [] h m = absurd m
any-flat_map p f t (s ∷ ts) h (inl e) = rw any-append (rw e (rw h))
any-flat_map p f t (s ∷ ts) h (inr m) =
    rw any-append (rw (any-flat_map p f t ts h m) (ground arith))

-- A URL with a path segment that is a destructive word, in letters of any case, any of its characters
-- written as `%` and two hexadecimal digits of any case, up to three times over, is found to have a
-- destructive segment.
pub destructive_segment_found :
    {Url : Type 0} (lib : UrlLib Url) (url : Url) (segments : List Text) (k : ℕ)
    (word segment : Text)
    → lib.path_segments url ≡ some segments
    → k ≤ 3
    → IsDestructiveWord word
    → EncodedTimes k word segment
    → Any (λ s. s ≡ segment) segments
    → path_has_destructive_segment lib url ≡ true
unfolding path_has_destructive_segment
destructive_segment_found lib url segments k word segment e h m written at = rw e (
    any-flat_map is_destructive segment_words segment segments
      (segment_found k word segment h m written) at)
