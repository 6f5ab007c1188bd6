-- ===== src/Ai/Json.antt =====
-- src-tauri/src/ai/json_balanced.rs: the search for a JSON fragment in the answer of a model. The
-- input is its bytes once the fence is off; `serde_json::from_str` is a parameter.
pub mod Balanced
pub mod Search
pub mod Starts
use rust_forge.Base.{
  ℕ, ◌+◌, ◌-◌, Bool, true, false, not, ◌&&◌, ◌||◌, List, [], ◌∷◌, Option, none, some, Result, ok,
  err, length, take, drop, ltb, ◌==◌, if◌then◌else◌,
}
use rust_forge.Text.{Text, codes, trim, strip_prefix, strip_suffix}
use rust_forge.Text.Utf8.{as_bytes}

abbrev after_prefix : Text → Text → Text
after_prefix prefix s = elim (strip_prefix prefix s) [ some rest ↦ rest | none ↦ s ]

abbrev before_suffix : Text → Text → Text
before_suffix suffix s = elim (strip_suffix suffix s) [ some front ↦ front | none ↦ s ]

unfoldable pub strip_code_fence : Text → Text
strip_code_fence raw =
    let trimmed = trim raw in
    let no_fence : Text = elim (strip_prefix (codes "```json") trimmed) [
      | some rest ↦ rest
      | none ↦ after_prefix (codes "```") trimmed
    ] in
    trim (before_suffix (codes "```") no_fence)

abbrev pub max_json_depth : ℕ
max_json_depth = 64

-- Whether the scan is in a string, and after a backslash in it.
pub record Quote : Type 0 where
  pub in_string : Bool
  pub escaped : Bool

abbrev pub outside : Quote
outside = record { in_string = false; escaped = false }

abbrev pub inside : Quote
inside = record { in_string = true; escaped = false }

-- One byte in a string.
unfoldable pub in_quote : Bool → ℕ → Quote
in_quote true byte = inside
in_quote false byte =
    if byte == b'\\'
    then record inside { escaped = true }
    else if byte == b'"'
    then outside
    else inside

abbrev pub is_open : ℕ → Bool
is_open byte = (byte == b'{') || (byte == b'[')

abbrev pub is_close : ℕ → Bool
is_close byte = (byte == b'}') || (byte == b']')

abbrev pub expected_open : ℕ → ℕ
expected_open byte = if byte == b'}' then b'{' else b'['

-- What one byte outside of strings makes of the scan.
pub data Step : Type 0 where
  goes_on : Quote → List ℕ → Step
  closes : Step
  fails : Step

abbrev pub closed : List ℕ → Step
closed [] = closes
closed (b ∷ stack) = goes_on outside (b ∷ stack)

abbrev pub pop : List ℕ → ℕ → Step
pop [] byte = fails
pop (top ∷ stack) byte = if top == expected_open byte then closed stack else fails

unfoldable pub step : List ℕ → ℕ → Step
step stack byte =
    if byte == b'"'
    then goes_on inside stack
    else if is_open byte
    then (if ltb max_json_depth (length (byte ∷ stack))
        then fails
        else goes_on outside (byte ∷ stack))
    else if is_close byte
    then pop stack byte
    else goes_on outside stack

-- The loop of `balanced_json_end` from an index on.
unfoldable pub scan : List ℕ → ℕ → Quote → List ℕ → Option ℕ
scan [] index quote stack = none
scan (byte ∷ bytes) index quote stack =
    elim (if quote.in_string
      then goes_on (in_quote quote.escaped byte) stack
      else step stack byte) [
        | goes_on quote' stack' ↦ scan bytes (index + 1) quote' stack'
        | closes ↦ some (index + 1)
        | fails ↦ none
      ]

unfoldable pub balanced_json_end : List ℕ → ℕ → Option ℕ
balanced_json_end input start = scan (drop start input) start outside []

-- The loop of `json_candidate_starts` from an index on.
abbrev pub after_byte : Quote → ℕ → Quote
after_byte quote byte =
    if quote.in_string then in_quote quote.escaped byte else if byte == b'"' then inside else quote

unfoldable pub starts_from : List ℕ → ℕ → Quote → List ℕ
starts_from [] index quote = []
starts_from (byte ∷ bytes) index quote =
    let rest = starts_from bytes (index + 1) (after_byte quote byte) in
    if not quote.in_string && is_open byte then index ∷ rest else rest

unfoldable pub json_candidate_starts : List ℕ → List ℕ
json_candidate_starts input = starts_from input 0 outside

pub data JsonError (E : Type 0) : Type 0 where
  no_json : JsonError E
  incomplete : JsonError E
  malformed : E → JsonError E

abbrev pub fragment : List ℕ → ℕ → ℕ → List ℕ
fragment input start end = take (end - start) (drop start input)

module _ {E A : Type 0} (from_str : List ℕ → Result E A) where
  -- The loop over the starts, with the last error so far.
  unfoldable pub try_starts : List ℕ → JsonError E → List ℕ → Result (JsonError E) A
  try_starts input last_error [] = err last_error
  try_starts input last_error (start ∷ starts) = elim (balanced_json_end input start) [
    | none ↦ try_starts input last_error starts
    | some end ↦ elim (from_str (fragment input start end)) [
      | ok value ↦ ok value
      | err error ↦ try_starts input (malformed error) starts
    ]
  ]

  abbrev pub parse_bytes : List ℕ → Result (JsonError E) A
  parse_bytes input = elim (json_candidate_starts input) [
    | [] ↦ err no_json
    | start ∷ starts ↦ try_starts input incomplete (start ∷ starts)
  ]

  unfoldable pub parse_llm_json : Text → Result (JsonError E) A
  parse_llm_json raw = parse_bytes (as_bytes (strip_code_fence raw))
