-- ===== src/Ai/Json/Search.antt =====
-- Which fragment the search for JSON returns.
use mathlib.Core.List.{append_assoc}
use rust_forge.Base.{
  ℕ, ◌+◌, ◌≡◌, ◌≢◌, refl, ap, sym, ◌∙◌, subst, ◌⊎◌, inl, inr, true, List, [], ◌∷◌, ◌++◌, none, some,
  Result, ok, err, arith, length, length-append, Bool-cases,
}
use rust_forge.Text.{Text}
use rust_forge.Text.Utf8.{as_bytes}
use rust_forge.Ai.Json.{
  JsonError, no_json, incomplete, malformed, fragment, outside, is_open, starts_from,
  balanced_json_end, json_candidate_starts, try_starts, strip_code_fence, parse_bytes,
  parse_llm_json,
}
use rust_forge.Ai.Json.Balanced.{Quoted, Brackets, Content, balanced_json_end_of_group}
use rust_forge.Ai.Json.Starts.{
  not_quote, opens_group, starts_from-open, starts_from-plain, starts_from-literal,
  fragment_of_group,
}

-- Text that ends outside of string literals: literals, and bytes that are no quotes.
pub data Prose : List ℕ → Type 0 where
  nothing : Prose []
  byte : {c : ℕ} {s : List ℕ} → c ≢ b'"' → Prose s → Prose (c ∷ s)
  literal : {q s : List ℕ} → Quoted q → Prose s → Prose (b'"' ∷ q ++ s)

module _ {E A : Type 0} (from_str : List ℕ → Result E A) (input : List ℕ) where
  -- No balanced fragment begins there, or it does not deserialize.
  abbrev pub NotAt : ℕ → Type 0
  NotAt start =
      (balanced_json_end input start ≡ none)
      ⊎ ((end : ℕ) × (e : E) × (balanced_json_end input start ≡ some end)
          × (from_str (fragment input start end) ≡ err e))

  abbrev tried : JsonError E → List ℕ → Result (JsonError E) A
  tried last starts = try_starts from_str input last starts

  try_none :
      (start : ℕ) (starts : List ℕ) (last : JsonError E)
      → balanced_json_end input start ≡ none
      → tried last starts ≡ tried last (start ∷ starts)
  unfolding try_starts
  try_none start starts last e = rw (e, try_starts) refl

  try_err :
      (start : ℕ) (starts : List ℕ) (last : JsonError E) (end : ℕ) (error : E)
      → balanced_json_end input start ≡ some end
      → from_str (fragment input start end) ≡ err error
      → tried (malformed error) starts ≡ tried last (start ∷ starts)
  unfolding try_starts
  try_err start starts last end error e f = rw (e, try_starts) (rw (f, try_starts) refl)

  try_ok :
      (start : ℕ) (starts : List ℕ) (last : JsonError E) (end : ℕ) (value : A)
      → balanced_json_end input start ≡ some end
      → from_str (fragment input start end) ≡ ok value
      → tried last (start ∷ starts) ≡ ok value
  unfolding try_starts
  try_ok start starts last end value e f = rw (e, try_starts) (rw (f, try_starts) refl)

  -- A start that does not serve is passed.
  try_next :
      (start : ℕ) (starts : List ℕ) (last : JsonError E)
      → NotAt start
      → (later : JsonError E) × (tried later starts ≡ tried last (start ∷ starts))
  try_next start starts last (inl gap) = (last, try_none start starts last gap)
  try_next start starts last (inr (end, error, e, f)) =
      (malformed error, try_err start starts last end error e f)

  -- Each opening bracket outside of string literals in a text that begins at an index.
  abbrev pub NoneWithin : List ℕ → ℕ → Type 0
  NoneWithin s index =
      (before after : List ℕ) (b : ℕ)
      → s ≡ before ++ (b ∷ after)
      → Prose before
      → is_open b ≡ true
      → NotAt (index + length before)

  shift_byte :
      (c : ℕ) (s : List ℕ) (index : ℕ)
      → c ≢ b'"'
      → NoneWithin (c ∷ s) index
      → NoneWithin s (index + 1)
  shift_byte c s index other none_within before after b e prose opens =
      subst NotAt (omega arith)
        (none_within (c ∷ before) after b (ap (λ t. c ∷ t) e) (byte other prose) opens)

  shift_literal :
      (q s : List ℕ) (index : ℕ)
      → Quoted q
      → NoneWithin (b'"' ∷ q ++ s) index
      → NoneWithin s (index + 1 + length q)
  shift_literal q s index quoted none_within before after b e prose opens =
      subst NotAt (omega (arith, length-append q before)) (
        none_within (b'"' ∷ q ++ before) after b
          (ap (λ t. b'"' ∷ t) (ap (λ t. q ++ t) e ∙ sym (append_assoc q before (b ∷ after))))
          (literal quoted prose) opens)

  -- The search goes past prose in which no opening bracket serves.
  passes :
      (s rest : List ℕ) (index : ℕ) (last : JsonError E)
      → Prose s
      → NoneWithin s index
      → (later : JsonError E) × (tried later (starts_from rest (index + length s) outside)
          ≡ tried last (starts_from (s ++ rest) index outside))
  passes _ rest index last nothing none_within =
      (last, ap (λ k. tried last (starts_from rest k outside)) (omega arith))
  passes _ rest index last (byte {c} {s} other prose) none_within =
      let shifted = shift_byte c s index other none_within in
      elim (Bool-cases (is_open c)) [
        | inl opens ↦
            let (later, e) =
              try_next index (starts_from (s ++ rest) (index + 1) outside) last
                (subst NotAt (omega arith) (none_within [] s c refl nothing opens)) in
            let (last', e') = passes s rest (index + 1) later prose shifted in
            (
              last',
              ap (λ k. tried last' (starts_from rest k outside)) (omega arith)
                  ∙ e'
                  ∙ e
                  ∙ ap (tried last) (sym (starts_from-open c (s ++ rest) index other opens)),
            )
        | inr shut ↦
            let (last', e') = passes s rest (index + 1) last prose shifted in
            (
              last',
              ap (λ k. tried last' (starts_from rest k outside)) (omega arith)
                  ∙ e'
                  ∙ ap (tried last) (sym (starts_from-plain c (s ++ rest) index other shut)),
            )
      ]
  passes _ rest index last (literal {q} {s} quoted prose) none_within =
      let (last', e') =
        passes s rest (index + 1 + length q) last prose
          (shift_literal q s index quoted none_within) in
      (
        last',
        ap (λ k. tried last' (starts_from rest k outside)) (omega (arith, length-append q s))
            ∙ e'
            ∙ ap (tried last) (sym (starts_from-literal q s rest index quoted)),
      )

  parse_bytes_of :
      (value : A)
      → tried incomplete (json_candidate_starts input) ≡ ok value
      → parse_bytes from_str input ≡ ok value
  unfolding try_starts
  parse_bytes_of value h = go (json_candidate_starts input) h
    where
      go :
          (starts : List ℕ)
          → tried incomplete starts ≡ ok value
          → ◌≡◌ {A = Result (JsonError E) A}
              (elim starts [
                | [] ↦ err no_json
                | start ∷ more ↦ try_starts from_str input incomplete (start ∷ more)
              ])
              (ok value)
      go [] h = let k : ◌≡◌ {A = Result (JsonError E) A} (err incomplete) (ok value) = h in cc
      go (start ∷ more) h = h

-- When the answer of a model, its fence off, has a balanced group of brackets, nested at most 64 deep,
-- that deserializes after some text of complete string literals and other characters, and no opening
-- bracket of that text outside of its literals begins a balanced fragment that deserializes, the value
-- of the group is returned.
pub parse_llm_json_finds :
    {E A : Type 0} (from_str : List ℕ → Result E A) (raw : Text) (front s rest : List ℕ) (o c : ℕ)
    (value : A)
    → as_bytes (strip_code_fence raw) ≡ front ++ (o ∷ s ++ (c ∷ rest))
    → Prose front
    → Brackets o c
    → Content 63 s
    → NoneWithin from_str (front ++ (o ∷ s ++ (c ∷ rest))) front 0
    → from_str (o ∷ s ++ (c ∷ [])) ≡ ok value
    → parse_llm_json from_str raw ≡ ok value
unfolding parse_llm_json json_candidate_starts
parse_llm_json_finds {E} from_str raw front s rest o c value same prose pair body none_within read =
    let input = front ++ (o ∷ s ++ (c ∷ rest)) in
    let group = o ∷ s ++ (c ∷ rest) in
    let (last, e) = passes from_str input front group 0 incomplete prose none_within in
    let here =
      starts_from-open o (s ++ (c ∷ rest)) (length front) (not_quote o c pair)
        (opens_group o c pair) in
    let found =
      try_ok from_str input (length front)
        (starts_from (s ++ (c ∷ rest)) (length front + 1) outside) last
        (length front + length s + 2) value (balanced_json_end_of_group front s rest o c pair body)
        (ap from_str (fragment_of_group front s rest o c) ∙ read) in
    rw same (
      parse_bytes_of from_str input value (
        sym e
        ∙ ap (λ k. try_starts from_str input last (starts_from group k outside)) (omega arith)
        ∙ ap (try_starts from_str input last) here
        ∙ found))
