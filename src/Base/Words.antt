-- ===== src/Base/Words.antt =====
-- Rust's unsigned machine integers as native numbers below a power of two.
use Prim.Native.Nat.{ℕ, ◌+◌, ◌-◌, ◌^◌, ◌%◌, min}

-- The largest values.
abbrev pub u8_max : ℕ
u8_max = 2 ^ 8 - 1

abbrev pub u32_max : ℕ
u32_max = 2 ^ 32 - 1

abbrev pub u64_max : ℕ
u64_max = 2 ^ 64 - 1

abbrev pub i64_max : ℕ
i64_max = 2 ^ 63 - 1

-- `a.saturating_add(b)` at a type whose largest value is `top`; `saturating_sub` is `-`.
abbrev pub saturating_add : ℕ → ℕ → ℕ → ℕ
saturating_add top a b = min top (a + b)

-- `a + b` on a `u32`, which wraps in a release build.
abbrev pub add_u32 : ℕ → ℕ → ℕ
add_u32 a b = (a + b) % 2 ^ 32
