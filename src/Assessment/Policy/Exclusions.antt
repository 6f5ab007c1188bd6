-- ===== src/Assessment/Policy/Exclusions.antt =====
-- Normalizing an excluded path a second time.
use rust_forge.Base.{
  ℕ, zero, suc, ◌≤◌, ◌<◌, ◌≡◌, ◌≢◌, refl, ap, ◌∙◌, true, false, [], ◌∷◌, ok, err, arith, All,
}
use rust_forge.Text.{
  Text, codes, trim, is_whitespace, trim_start_matches, trim_end_matches, contains, one_char_of,
  starts_with, strip_prefix, replace, byte_len,
}
use rust_forge.Assessment.Policy.{
  invalid_excluded_path, canonical_policy_path, is_bad_path, is_slash, normalize_excluded_path,
}
use rust_forge.Text.Utf8.{as_bytes, from_utf8_lossy}
use rust_forge.Assessment.Policy.Percent.{
  percent_decode_repeatedly, decode_rounds, percent_decode_lossy, percent_bytes,
}
use rust_forge.Assessment.Policy.Decoding.{percent_decode_repeatedly-encoded}

-- `n` slashes
abbrev pub slashes : ℕ → Text
slashes zero = []
slashes (suc n) = b'/' ∷ slashes n

slashes-plain : (n : ℕ) → All (λ c. (c < 128) × (c ≢ b'%')) (slashes n)
slashes-plain zero = tt
slashes-plain (suc n) = ((omega arith, omega arith), slashes-plain n)

slashes-trim_start : (n : ℕ) → trim_start_matches is_whitespace (slashes n) ≡ slashes n
unfolding trim_start_matches is_whitespace
slashes-trim_start zero = refl
slashes-trim_start (suc n) = refl

slashes-trim_end : (n : ℕ) → trim_end_matches is_whitespace (slashes n) ≡ slashes n
unfolding trim_end_matches is_whitespace
slashes-trim_end zero = refl
slashes-trim_end (suc n) = ap (λ s. b'/' ∷ s) (slashes-trim_end n)

trim-slashes : (n : ℕ) → trim (slashes n) ≡ slashes n
unfolding trim
trim-slashes n = rw (slashes-trim_start n) (slashes-trim_end n)

replace-slashes : (n : ℕ) → replace b'\\' b'/' (slashes n) ≡ slashes n
unfolding replace
replace-slashes zero = refl
replace-slashes (suc n) = ap (λ s. b'/' ∷ s) (replace-slashes n)

canonical-slashes : (n : ℕ) → canonical_policy_path (slashes n) ≡ slashes n
unfolding canonical_policy_path
canonical-slashes n =
    ap (replace b'\\' b'/')
      (percent_decode_repeatedly-encoded 0 (slashes n) (omega arith) (slashes-plain n))
    ∙ replace-slashes n

byte_len-slashes : (n : ℕ) → byte_len (slashes n) ≡ n
unfolding byte_len
byte_len-slashes zero = refl
byte_len-slashes (suc n) = omega (arith, byte_len-slashes n)

no_query-slashes :
    (n : ℕ) → contains (one_char_of (b'?' ∷ b'#' ∷ b'\r' ∷ b'\n' ∷ [])) (slashes n) ≡ false
unfolding contains one_char_of
no_query-slashes zero = refl
no_query-slashes (suc n) = no_query-slashes n

trim_slashes : (n : ℕ) → trim_end_matches is_slash (slashes n) ≡ []
unfolding trim_end_matches
trim_slashes zero = refl
trim_slashes (suc n) = rw (trim_slashes n)

starts-slashes : (n : ℕ) → starts_with (codes "/") (slashes (suc n)) ≡ true
unfolding starts_with strip_prefix
starts-slashes n = refl

good-slashes : (n : ℕ) → suc (suc n) ≤ 2048 → is_bad_path (slashes (suc (suc n))) ≡ false
good-slashes n h =
    rw (starts-slashes (suc n))
      (rw (no_query-slashes (suc (suc n))) (rw (byte_len-slashes (suc (suc n))) (ground arith)))

normalized-slashes :
    (n : ℕ) → suc (suc n) ≤ 2048 → normalize_excluded_path (slashes (suc (suc n))) ≡ ok []
unfolding normalize_excluded_path
normalized-slashes n h =
    let m = suc (suc n) in
    let path : canonical_policy_path (trim (slashes m)) ≡ slashes m =
      ap canonical_policy_path (trim-slashes m) ∙ canonical-slashes m in
    rw path (rw (good-slashes n h, byte_len-slashes m, trim_slashes m) (ground arith))

empty_refused : normalize_excluded_path [] ≡ err invalid_excluded_path
unfolding normalize_excluded_path canonical_policy_path percent_decode_repeatedly decode_rounds
    percent_decode_lossy percent_bytes trim trim_start_matches trim_end_matches as_bytes
    from_utf8_lossy replace
empty_refused = refl

-- An excluded path of 2 to 2048 slashes is accepted and normalized to the empty text, which the
-- same function refuses: a contract that holds it is rejected when it is read again.
pub slashes_unstable :
    (n : ℕ)
    → 2 ≤ n
    → n ≤ 2048
    → (normalize_excluded_path (slashes n) ≡ ok [])
      × (normalize_excluded_path [] ≡ err invalid_excluded_path)
slashes_unstable zero h k = absurd (omega arith)
slashes_unstable (suc zero) h k = absurd (omega arith)
slashes_unstable (suc (suc n)) h k = (normalized-slashes n k, empty_refused)
