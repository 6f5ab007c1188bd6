-- ===== src/Assessment/Policy/Percent.antt =====
-- src-tauri/src/assessment/policy.rs: `percent_decode_lossy`, `percent_decode_repeatedly` and
-- `hex_value`.
use rust_forge.Base.{
  ℕ, zero, suc, ◌+◌, ◌-◌, ◌*◌, ◌≡◌, refl, List, [], ◌∷◌, Option, none, some, ◌==◌, if◌then◌else◌,
}
use rust_forge.Text.{Text, codes, text_eq, between}
use rust_forge.Text.Utf8.{as_bytes, from_utf8_lossy}

unfoldable pub hex_value : ℕ → Option ℕ
hex_value value =
    if between b'0' b'9' value
    then some (value - b'0')
    else if between b'a' b'f' value
    then some (value - b'a' + 10)
    else if between b'A' b'F' value
    then some (value - b'A' + 10)
    else none

-- `(high << 4) | low`, where both are below 16.
abbrev pub hex_byte : ℕ → ℕ → Option ℕ
hex_byte high low = elim (hex_value high) [
  | none ↦ none
  | some h ↦ elim (hex_value low) [ none ↦ none | some l ↦ some (h * 16 + l) ]
]

-- The loop over the bytes: `%` and two hex digits after it are one byte.
unfoldable pub percent_bytes : List ℕ → List ℕ
percent_bytes [] = []
percent_bytes (a ∷ []) = a ∷ []
percent_bytes (a ∷ b ∷ []) = a ∷ b ∷ []
percent_bytes (a ∷ b ∷ c ∷ rest) =
    let decoded = percent_bytes rest in
    let kept = percent_bytes (b ∷ c ∷ rest) in
    if a == b'%' then elim (hex_byte b c) [ some v ↦ v ∷ decoded | none ↦ a ∷ kept ] else a ∷ kept

unfoldable pub percent_decode_lossy : Text → Text
percent_decode_lossy value = from_utf8_lossy (percent_bytes (as_bytes value))

-- The loop, for the rounds that are left.
unfoldable pub decode_rounds : ℕ → Text → Text
decode_rounds zero current = current
decode_rounds (suc n) current =
    let next = percent_decode_lossy current in
    let rest = decode_rounds n next in if text_eq next current then current else rest

unfoldable pub percent_decode_repeatedly : Text → Text
percent_decode_repeatedly value = decode_rounds 3 value

double_encoded : percent_decode_repeatedly (codes "%2561dmin%2Fx") ≡ codes "admin/x"
unfolding percent_decode_repeatedly decode_rounds percent_decode_lossy percent_bytes hex_value
    as_bytes from_utf8_lossy
double_encoded = refl
