-- ===== src/Assessment/Policy/Decoding.antt =====
-- Percent decoding: the bounded loop is three plain passes, encoded text is read back, and so a
-- destructive word cannot hide behind encodings.
use rust_forge.Base.{
  ℕ, zero, suc, ◌+◌, ◌-◌, ◌*◌, ◌/◌, ◌%◌, ◌≤◌, ◌<◌, ◌≡◌, ◌≢◌, refl, ap, sym, ◌∙◌, inl, inr, List, [],
  ◌∷◌, some, arith, ltb, if◌then◌else◌, All, Bool-cases,
}
use rust_forge.Text.{Text, text_eq}
use rust_forge.Text.Utf8.{as_bytes-ascii, from_utf8_lossy-ascii}
use rust_forge.Text.Laws.{text_eq→eq}
use rust_forge.Assessment.Policy.Percent.{
  hex_value, hex_byte, percent_bytes, percent_decode_lossy, decode_rounds,
  percent_decode_repeatedly,
}

abbrev pub iterate {ℓ} : {A : Type ℓ} → ℕ → (A → A) → A → A
iterate zero f x = x
iterate (suc n) f x = iterate n f (f x)

pub iterate_fixed : (n : ℕ) (f : Text → Text) (x : Text) → f x ≡ x → iterate n f x ≡ x
iterate_fixed zero f x h = refl
iterate_fixed (suc n) f x h = rw h (iterate_fixed n f x h)

decode_rounds-iterate : (n : ℕ) (x : Text) → decode_rounds n x ≡ iterate n percent_decode_lossy x
unfolding decode_rounds
decode_rounds-iterate zero x = refl
decode_rounds-iterate (suc n) x = elim (Bool-cases (text_eq (percent_decode_lossy x) x)) [
  | inl e ↦
      let fixed = text_eq→eq (percent_decode_lossy x) x e in
      rw (e, decode_rounds) (sym (iterate_fixed (suc n) percent_decode_lossy x fixed))
  | inr e ↦ rw (e, decode_rounds) (decode_rounds-iterate n (percent_decode_lossy x))
]

-- Upper-case hex, as a client would send it.
abbrev pub hex_digit : ℕ → ℕ
hex_digit n = if ltb n 10 then b'0' + n else b'A' + (n - 10)

-- Every byte of an ASCII text as `%` and two digits.
abbrev pub percent_encode : Text → Text
percent_encode [] = []
percent_encode (c ∷ s) = b'%' ∷ hex_digit (c / 16) ∷ hex_digit (c % 16) ∷ percent_encode s

abbrev pub IsAscii : Text → Type 0
IsAscii s = All (λ c. c < 128) s

percent_encode-IsAscii : (s : Text) → IsAscii s → IsAscii (percent_encode s)
percent_encode-IsAscii [] h = tt
percent_encode-IsAscii (c ∷ s) (hc, hs) =
    (omega arith, (ground arith, (ground arith, percent_encode-IsAscii s hs)))

hex_value-hex_digit : (n : ℕ) → n < 16 → hex_value (hex_digit n) ≡ some n
unfolding hex_value
hex_value-hex_digit n h = ground arith

pub hex_byte_of :
    (d e h l : ℕ) → hex_value d ≡ some h → hex_value e ≡ some l → hex_byte d e ≡ some (h * 16 + l)
hex_byte_of d e h l p q = ground arith

hex_byte-encode : (c : ℕ) → c < 128 → hex_byte (hex_digit (c / 16)) (hex_digit (c % 16)) ≡ some c
hex_byte-encode c h =
    let whole : c / 16 * 16 + c % 16 ≡ c = omega arith in
    hex_byte_of _ _ (c / 16) (c % 16) (hex_value-hex_digit (c / 16) (omega arith))
      (hex_value-hex_digit (c % 16) (omega arith))
    ∙ ap some whole

percent_bytes-encode : (s : Text) → IsAscii s → percent_bytes (percent_encode s) ≡ s
unfolding percent_bytes
percent_bytes-encode [] h = refl
percent_bytes-encode (c ∷ s) (hc, hs) =
    ground (arith, hex_byte-encode c hc, percent_bytes-encode s hs)

percent_decode_lossy-encode : (s : Text) → IsAscii s → percent_decode_lossy (percent_encode s) ≡ s
unfolding percent_decode_lossy
percent_decode_lossy-encode s h =
    rw (as_bytes-ascii _ (percent_encode-IsAscii s h))
      (rw (percent_bytes-encode s h) (from_utf8_lossy-ascii s h))

-- A text without `%` is read as it is.
percent_bytes-plain : (s : List ℕ) → All (λ c. c ≢ b'%') s → percent_bytes s ≡ s
unfolding percent_bytes
percent_bytes-plain [] h = refl
percent_bytes-plain (a ∷ []) h = refl
percent_bytes-plain (a ∷ b ∷ []) h = refl
percent_bytes-plain (a ∷ b ∷ c ∷ rest) (ha, hb) =
    ground (arith, percent_bytes-plain (b ∷ c ∷ rest) hb)

-- Encoded that often.
abbrev pub encoded : ℕ → Text → Text
encoded zero s = s
encoded (suc k) s = percent_encode (encoded k s)

encoded-IsAscii : (k : ℕ) (s : Text) → IsAscii s → IsAscii (encoded k s)
encoded-IsAscii zero s h = h
encoded-IsAscii (suc k) s h = percent_encode-IsAscii (encoded k s) (encoded-IsAscii k s h)

abbrev pub IsPlain : Text → Type 0
IsPlain s = All (λ c. (c < 128) × (c ≢ b'%')) s

pub IsPlain-IsAscii : (s : Text) → IsPlain s → IsAscii s
IsPlain-IsAscii [] h = tt
IsPlain-IsAscii (c ∷ s) h = (h.0.0, IsPlain-IsAscii s h.1)

IsPlain-no_percent : (s : Text) → IsPlain s → All (λ c. c ≢ b'%') s
IsPlain-no_percent [] h = tt
IsPlain-no_percent (c ∷ s) h = (h.0.1, IsPlain-no_percent s h.1)

pub percent_decode_lossy-plain : (s : Text) → IsPlain s → percent_decode_lossy s ≡ s
unfolding percent_decode_lossy
percent_decode_lossy-plain s h = rw (as_bytes-ascii s (IsPlain-IsAscii s h)) (
    rw (percent_bytes-plain s (IsPlain-no_percent s h))
      (from_utf8_lossy-ascii s (IsPlain-IsAscii s h)))

iterate-encoded :
    (n k : ℕ) (s : Text) → k ≤ n → IsPlain s → iterate n percent_decode_lossy (encoded k s) ≡ s
iterate-encoded n zero s h p =
    iterate_fixed n percent_decode_lossy s (percent_decode_lossy-plain s p)
iterate-encoded zero (suc k) s h p = absurd (omega arith)
iterate-encoded (suc n) (suc k) s h p =
    rw (percent_decode_lossy-encode (encoded k s) (encoded-IsAscii k s (IsPlain-IsAscii s p)))
      (iterate-encoded n k s (omega arith) p)

pub percent_decode_repeatedly-iterate :
    (s : Text) → percent_decode_repeatedly s ≡ iterate 3 percent_decode_lossy s
unfolding percent_decode_repeatedly
percent_decode_repeatedly-iterate s = decode_rounds-iterate 3 s

-- The decoding loop of at most three rounds, which stops early, is three passes.
pub percent_decode_repeatedly-passes :
    (s : Text)
    → percent_decode_repeatedly s
      ≡ percent_decode_lossy (percent_decode_lossy (percent_decode_lossy s))
unfolding percent_decode_repeatedly
percent_decode_repeatedly-passes s = decode_rounds-iterate 3 s

-- A text of ASCII characters without `%` that was percent-encoded at most three times, every byte
-- each time, is read back.
pub percent_decode_repeatedly-encoded :
    (k : ℕ) (s : Text) → k ≤ 3 → IsPlain s → percent_decode_repeatedly (encoded k s) ≡ s
percent_decode_repeatedly-encoded k s h p =
    percent_decode_repeatedly-passes (encoded k s) ∙ iterate-encoded 3 k s h p
