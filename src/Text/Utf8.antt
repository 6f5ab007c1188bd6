-- ===== src/Text/Utf8.antt =====
-- `str::as_bytes` and `String::from_utf8_lossy`.
use rust_forge.Base.{
  ℕ, ◌+◌, ◌-◌, ◌*◌, ◌/◌, ◌%◌, ◌<◌, ◌≡◌, refl, Bool, List, [], ◌∷◌, ◌++◌, arith, ltb, ◌==◌,
  if◌then◌else◌, All,
}
use rust_forge.Text.{Text, between, codes}

unfoldable pub encode_char : ℕ → List ℕ
encode_char c =
    if ltb c 0x80
    then c ∷ []
    else if ltb c 0x800
    then (0xc0 + c / 64) ∷ (0x80 + c % 64) ∷ []
    else if ltb c 0x10000
    then (0xe0 + c / 4096) ∷ (0x80 + c / 64 % 64) ∷ (0x80 + c % 64) ∷ []
    else (0xf0 + c / 262144) ∷ (0x80 + c / 4096 % 64) ∷ (0x80 + c / 64 % 64) ∷ (0x80 + c % 64) ∷ []

unfoldable pub as_bytes : Text → List ℕ
unfolding encode_char
as_bytes [] = []
as_bytes (c ∷ s) = encode_char c ++ as_bytes s

abbrev is_continuation : ℕ → Bool
is_continuation b = between 0x80 0xbf b

-- The second bytes that a lead byte of three or four bytes allows.
abbrev second3 : ℕ → ℕ → Bool
second3 a b =
    if a == 0xe0
    then between 0xa0 0xbf b
    else if a == 0xed
    then between 0x80 0x9f b
    else is_continuation b

abbrev second4 : ℕ → ℕ → Bool
second4 a b =
    if a == 0xf0
    then between 0x90 0xbf b
    else if a == 0xf4
    then between 0x80 0x8f b
    else is_continuation b

abbrev pub replacement : ℕ
replacement = 0xfffd

-- What has been read of the character at hand: the value so far and the bytes that must follow.
pub data Pending : Type 0 where
  start : Pending
  two : ℕ → Pending
  three : ℕ → Pending
  three_last : ℕ → Pending
  four : ℕ → Pending
  four_third : ℕ → Pending
  four_last : ℕ → Pending

-- A byte at the start of a character: what it emits, and what is pending after it.
abbrev lead : ℕ → List ℕ × Pending
lead a =
    if ltb a 0x80
    then (a ∷ [], start)
    else if between 0xc2 0xdf a
    then ([], two a)
    else if between 0xe0 0xef a
    then ([], three a)
    else if between 0xf0 0xf4 a
    then ([], four a)
    else (replacement ∷ [], start)

-- A byte that does not continue the character ends it: U+FFFD for the maximal prefix read, and
-- the byte is read as a start.
abbrev broken : ℕ → List ℕ × Pending
broken b = let (out, p) = lead b in (replacement ∷ out, p)

step : Pending → ℕ → List ℕ × Pending
step start b = lead b
step (two a) b =
    if is_continuation b then (((a - 0xc0) * 64 + (b - 0x80)) ∷ [], start) else broken b
step (three a) b = if second3 a b then ([], three_last ((a - 0xe0) * 64 + (b - 0x80))) else broken b
step (three_last v) b = if is_continuation b then ((v * 64 + (b - 0x80)) ∷ [], start) else broken b
step (four a) b = if second4 a b then ([], four_third ((a - 0xf0) * 64 + (b - 0x80))) else broken b
step (four_third v) b =
    if is_continuation b then ([], four_last (v * 64 + (b - 0x80))) else broken b
step (four_last v) b = if is_continuation b then ((v * 64 + (b - 0x80)) ∷ [], start) else broken b

-- At the end an unfinished character is one U+FFFD.
finish : Pending → List ℕ
finish start = []
finish _ = replacement ∷ []

decode_from : Pending → List ℕ → Text
decode_from p [] = finish p
decode_from p (b ∷ bs) = let (out, p') = step p b in out ++ decode_from p' bs

unfoldable pub from_utf8_lossy : List ℕ → Text
unfolding decode_from step finish
from_utf8_lossy = decode_from start

-- ASCII bytes are the text itself.
pub from_utf8_lossy-ascii : (bs : List ℕ) → All (λ b. b < 128) bs → from_utf8_lossy bs ≡ bs
unfolding from_utf8_lossy
from_utf8_lossy-ascii [] h = refl
from_utf8_lossy-ascii (b ∷ bs) h = ground (arith, from_utf8_lossy-ascii bs h.1)

pub as_bytes-ascii : (s : Text) → All (λ c. c < 128) s → as_bytes s ≡ s
unfolding as_bytes
as_bytes-ascii [] h = refl
as_bytes-ascii (c ∷ s) h = ground (arith, as_bytes-ascii s h.1)

utf8_test : from_utf8_lossy (as_bytes (codes "a中é😀")) ≡ codes "a中é😀"
unfolding from_utf8_lossy as_bytes
utf8_test = refl

broken_test :
    from_utf8_lossy (0x41 ∷ 0xe4 ∷ 0xb8 ∷ 0x41 ∷ 0xff ∷ []) ≡ 0x41 ∷ 0xfffd ∷ 0x41 ∷ 0xfffd ∷ []
unfolding from_utf8_lossy
broken_test = refl
