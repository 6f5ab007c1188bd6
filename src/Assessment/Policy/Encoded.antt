-- ===== src/Assessment/Policy/Encoded.antt =====
-- src-tauri/src/assessment/policy.rs: texts with some of their characters as `%` and two digits, and
-- what `percent_decode_repeatedly` makes of them.
use rust_forge.Base.{
  ℕ, zero, suc, ◌+◌, ◌*◌, ◌≤◌, ◌<◌, ◌≡◌, ◌≢◌, refl, ap, ◌∙◌, List, [], ◌∷◌, some, arith,
}
use rust_forge.Text.{Text}
use rust_forge.Text.Utf8.{as_bytes-ascii, from_utf8_lossy-ascii}
use rust_forge.Assessment.Policy.Percent.{hex_value, hex_byte, percent_bytes, percent_decode_lossy}
use rust_forge.Assessment.Policy.Decoding.{
  iterate, iterate_fixed, IsAscii, IsPlain, IsPlain-IsAscii, percent_decode_lossy-plain,
  hex_byte_of,
}

-- A hexadecimal digit of either case, with its value.
pub data HexDigit : ℕ → ℕ → Type 0 where
  decimal_digit : {n : ℕ} → n < 10 → HexDigit (b'0' + n) n
  upper_digit : {n : ℕ} → n < 6 → HexDigit (b'A' + n) (10 + n)
  lower_digit : {n : ℕ} → n < 6 → HexDigit (b'a' + n) (10 + n)

-- A text, and what it may be written as: any of its characters, and each `%`, as `%` and two digits.
pub data Encoded : Text → Text → Type 0 where
  nothing : Encoded [] []
  kept : {c : ℕ} {s e : Text} → c ≢ b'%' → Encoded s e → Encoded (c ∷ s) (c ∷ e)
  escaped :
      {d h f l : ℕ} {s e : Text}
      → HexDigit d h
      → HexDigit f l
      → Encoded s e
      → Encoded ((h * 16 + l) ∷ s) (b'%' ∷ d ∷ f ∷ e)

-- Encoded that often, in part or in whole each time.
pub data EncodedTimes : ℕ → Text → Text → Type 0 where
  as_it_is : {s : Text} → EncodedTimes 0 s s
  once_more : {k : ℕ} {s m e : Text} → EncodedTimes k s m → Encoded m e → EncodedTimes (suc k) s e

hex_value-HexDigit : (d n : ℕ) → HexDigit d n → hex_value d ≡ some n
unfolding hex_value
hex_value-HexDigit _ n (decimal_digit h) = ground arith
hex_value-HexDigit _ _ (upper_digit h) = ground arith
hex_value-HexDigit _ _ (lower_digit h) = ground arith

HexDigit-small : (d n : ℕ) → HexDigit d n → d < 128
HexDigit-small _ n (decimal_digit h) = omega arith
HexDigit-small _ _ (upper_digit h) = omega arith
HexDigit-small _ _ (lower_digit h) = omega arith

percent_bytes-kept : (c : ℕ) (e : List ℕ) → c ≢ b'%' → percent_bytes (c ∷ e) ≡ c ∷ percent_bytes e
unfolding percent_bytes
percent_bytes-kept c [] h = refl
percent_bytes-kept c (a ∷ []) h = refl
percent_bytes-kept c (a ∷ b ∷ e) h = ground arith

percent_bytes-escaped :
    (d f v : ℕ) (e : List ℕ)
    → hex_byte d f ≡ some v
    → percent_bytes (b'%' ∷ d ∷ f ∷ e) ≡ v ∷ percent_bytes e
unfolding percent_bytes
percent_bytes-escaped d f v e h = rw h refl

percent_bytes-Encoded : (s e : Text) → Encoded s e → percent_bytes e ≡ s
percent_bytes-Encoded _ _ nothing = unfold percent_bytes in refl
percent_bytes-Encoded _ _ (kept {c} {s} {e} h rest) =
    percent_bytes-kept c e h ∙ ap (λ t. c ∷ t) (percent_bytes-Encoded s e rest)
percent_bytes-Encoded _ _ (escaped {d} {h} {f} {l} {s} {e} high low rest) =
    percent_bytes-escaped d f (h * 16 + l) e
      (hex_byte_of d f h l (hex_value-HexDigit d h high) (hex_value-HexDigit f l low))
    ∙ ap (λ t. (h * 16 + l) ∷ t) (percent_bytes-Encoded s e rest)

Encoded-IsAscii : (s e : Text) → Encoded s e → IsAscii s → IsAscii e
Encoded-IsAscii _ _ nothing h = tt
Encoded-IsAscii _ _ (kept {c} {s} {e} _ rest) h = (h.0, Encoded-IsAscii s e rest h.1)
Encoded-IsAscii _ _ (escaped {d} {h = v} {f = f} {l = l} {s = s} {e = e} high low rest) h =
    (omega arith, (HexDigit-small d v high, (HexDigit-small f l low, Encoded-IsAscii s e rest h.1)))

EncodedTimes-IsAscii : (k : ℕ) (s e : Text) → EncodedTimes k s e → IsAscii s → IsAscii e
EncodedTimes-IsAscii _ s _ as_it_is h = h
EncodedTimes-IsAscii _ _ _ (once_more {k} {s} {m} {e} times last) h =
    Encoded-IsAscii m e last (EncodedTimes-IsAscii k s m times h)

percent_decode_lossy-Encoded : (s e : Text) → Encoded s e → IsAscii s → percent_decode_lossy e ≡ s
unfolding percent_decode_lossy
percent_decode_lossy-Encoded s e written h =
    rw (as_bytes-ascii e (Encoded-IsAscii s e written h))
      (rw (percent_bytes-Encoded s e written) (from_utf8_lossy-ascii s h))

pub iterate-EncodedTimes :
    (n k : ℕ) (s e : Text)
    → k ≤ n
    → IsPlain s
    → EncodedTimes k s e
    → iterate n percent_decode_lossy e ≡ s
iterate-EncodedTimes n _ s _ h p as_it_is =
    iterate_fixed n percent_decode_lossy s (percent_decode_lossy-plain s p)
iterate-EncodedTimes zero _ s _ h p (once_more times last) = absurd (omega arith)
iterate-EncodedTimes (suc n) _ _ _ h p (once_more {k} {s} {m} {e} times last) =
    rw
      (percent_decode_lossy-Encoded m e last
        (EncodedTimes-IsAscii k s m times (IsPlain-IsAscii s p)))
      (iterate-EncodedTimes n k s m (omega arith) p times)
