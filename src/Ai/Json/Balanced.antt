-- ===== src/Ai/Json/Balanced.antt =====
-- The bracket scan finds exactly the end of a balanced fragment.
use mathlib.Core.List.{append_assoc}
use rust_forge.Base.{
  ℕ, suc, ◌+◌, ◌≤◌, ◌<◌, ◌≡◌, ◌≢◌, refl, ap, ◌∙◌, false, List, [], ◌∷◌, ◌++◌, some, arith, length,
  length-append, drop, ltb, ◌==◌,
}
use rust_forge.Ai.Json.{
  Quote, inside, outside, in_quote, is_open, is_close, goes_on, closes, closed, step, scan,
  balanced_json_end,
}

-- The rest of a string literal, its closing quote included.
pub data Quoted : List ℕ → Type 0 where
  last_quote : Quoted (b'"' ∷ [])
  escape : {c : ℕ} {s : List ℕ} → Quoted s → Quoted (b'\\' ∷ c ∷ s)
  plain : {c : ℕ} {s : List ℕ} → c ≢ b'"' → c ≢ b'\\' → Quoted s → Quoted (c ∷ s)

-- Neither a quote nor a bracket.
abbrev pub IsOther : ℕ → Type 0
IsOther c = ((c == b'"') ≡ false) × (is_open c ≡ false) × (is_close c ≡ false)

pub data Brackets : ℕ → ℕ → Type 0 where
  braces : Brackets b'{' b'}'
  square : Brackets b'[' b']'

-- What may stand between brackets, nested at most so deep.
pub data Content : ℕ → List ℕ → Type 0 where
  nothing : {n : ℕ} → Content n []
  other : {n c : ℕ} {s : List ℕ} → IsOther c → Content n s → Content n (c ∷ s)
  string : {n : ℕ} {q s : List ℕ} → Quoted q → Content n s → Content n (b'"' ∷ q ++ s)
  group :
      {n o c : ℕ} {s t : List ℕ}
      → Brackets o c
      → Content n s
      → Content (suc n) t
      → Content (suc n) (o ∷ s ++ (c ∷ t))

at_index :
    (rest : List ℕ) (quote : Quote) (stack : List ℕ) {i j : ℕ}
    → i ≡ j
    → scan rest i quote stack ≡ scan rest j quote stack
at_index rest quote stack e = ap (λ k. scan rest k quote stack) e

scan-Quoted :
    (q rest : List ℕ) (i : ℕ) (stack : List ℕ)
    → Quoted q
    → scan (q ++ rest) i inside stack ≡ scan rest (i + length q) outside stack
unfolding scan in_quote
scan-Quoted _ rest i stack last_quote = refl
scan-Quoted _ rest i stack (escape {c} {s} q) =
    scan-Quoted s rest (i + 1 + 1) stack q ∙ at_index rest outside stack (omega arith)
scan-Quoted _ rest i stack (plain {c} {s} a b q) =
    let e : (c == b'\\') ≡ false = ground arith in
    let f : (c == b'"') ≡ false = ground arith in
    rw (e, f) (scan-Quoted s rest (i + 1) stack q ∙ at_index rest outside stack (omega arith))

-- One byte that the scan goes past.
scan-step :
    (b : ℕ) (rest : List ℕ) (i : ℕ) (stack stack' : List ℕ) (quote : Quote)
    → step stack b ≡ goes_on quote stack'
    → scan (b ∷ rest) i outside stack ≡ scan rest (i + 1) quote stack'
unfolding scan
scan-step b rest i stack stack' quote h = rw (h, scan)

step-quote : (stack : List ℕ) → step stack b'"' ≡ goes_on inside stack
unfolding step
step-quote stack = refl

step-other : (stack : List ℕ) (c : ℕ) → IsOther c → step stack c ≡ goes_on outside stack
unfolding step
step-other stack c (q, o, k) = rw (q, o, k) refl

step-open :
    (stack : List ℕ) (o c : ℕ)
    → Brackets o c
    → length stack < 64
    → step stack o ≡ goes_on outside (o ∷ stack)
unfolding step
step-open stack _ _ braces h =
    let room : ltb 64 (suc (length stack)) ≡ false = ground arith in rw room refl
step-open stack _ _ square h =
    let room : ltb 64 (suc (length stack)) ≡ false = ground arith in rw room refl

step-close : (stack : List ℕ) (o c : ℕ) → Brackets o c → step (o ∷ stack) c ≡ closed stack
unfolding step
step-close stack _ _ braces = refl
step-close stack _ _ square = refl

-- Content is passed, where the stack leaves room for its nesting.
scan-Content :
    (n : ℕ) (s rest : List ℕ) (i b : ℕ) (stack : List ℕ)
    → length (b ∷ stack) + n ≤ 64
    → Content n s
    → scan (s ++ rest) i outside (b ∷ stack) ≡ scan rest (i + length s) outside (b ∷ stack)
scan-Content n _ rest i b stack h nothing = at_index rest outside (b ∷ stack) (omega arith)
scan-Content n _ rest i b stack h (other {c = c} {s = s} is_other body) =
    scan-step c (s ++ rest) i (b ∷ stack) (b ∷ stack) outside (step-other (b ∷ stack) c is_other)
    ∙ scan-Content n s rest (i + 1) b stack h body
    ∙ at_index rest outside (b ∷ stack) (omega arith)
scan-Content n _ rest i b stack h (string {q = q} {s = s} quoted body) =
    scan-step b'"' (q ++ s ++ rest) i (b ∷ stack) (b ∷ stack) inside (step-quote (b ∷ stack))
    ∙ ap (λ l. scan l (i + 1) inside (b ∷ stack)) (append_assoc q s rest)
    ∙ scan-Quoted q (s ++ rest) (i + 1) (b ∷ stack) quoted
    ∙ scan-Content n s rest (i + 1 + length q) b stack h body
    ∙ at_index rest outside (b ∷ stack) (omega (arith, length-append q s))
scan-Content _ _ rest i b stack h (group {n} {o} {c} {s} {t} pair body after) =
    let inner = o ∷ b ∷ stack in
    scan-step o (s ++ (c ∷ t) ++ rest) i (b ∷ stack) inner outside
      (step-open (b ∷ stack) o c pair (omega arith))
    ∙ ap (λ l. scan l (i + 1) outside inner) (append_assoc s (c ∷ t) rest)
    ∙ scan-Content n s (c ∷ (t ++ rest)) (i + 1) o (b ∷ stack) (omega arith) body
    ∙ scan-step c (t ++ rest) (i + 1 + length s) inner (b ∷ stack) outside
        (step-close (b ∷ stack) o c pair)
    ∙ scan-Content (suc n) t rest (i + 1 + length s + 1) b stack h after
    ∙ at_index rest outside (b ∷ stack) (omega (arith, length-append s (c ∷ t)))

drop-append : (xs ys : List ℕ) → drop (length xs) (xs ++ ys) ≡ ys
drop-append [] ys = refl
drop-append (x ∷ xs) ys = drop-append xs ys

scan_last :
    (b : ℕ) (rest : List ℕ) (i : ℕ) (stack : List ℕ)
    → step stack b ≡ closes
    → scan (b ∷ rest) i outside stack ≡ some (i + 1)
unfolding scan
scan_last b rest i stack h = rw (h, scan)

-- A pair of brackets with content nested at most 63 deep between them is found where it begins, and
-- its end is the index after its closing bracket, whatever stands before and after it. Brackets in
-- string literals do not count.
pub balanced_json_end_of_group :
    (front s rest : List ℕ) (o c : ℕ)
    → Brackets o c
    → Content 63 s
    → balanced_json_end (front ++ (o ∷ s ++ (c ∷ rest))) (length front)
      ≡ some (length front + length s + 2)
unfolding balanced_json_end
balanced_json_end_of_group front s rest o c pair body =
    let i = length front in
    ap (λ l. scan l i outside []) (drop-append front (o ∷ s ++ (c ∷ rest)))
    ∙ scan-step o (s ++ (c ∷ rest)) i [] (o ∷ []) outside (step-open [] o c pair (omega arith))
    ∙ scan-Content 63 s (c ∷ rest) (i + 1) o [] (omega arith) body
    ∙ scan_last c rest (i + 1 + length s) (o ∷ []) (step-close [] o c pair)
    ∙ ap some (omega arith)
