-- ===== src/Proxy/Capture/Bounds.antt =====
-- What the capture keeps of a stream, whatever its frames.
use rust_forge.Base.{
  ℕ, zero, suc, ◌-◌, ◌≤◌, ◌≡◌, refl, ap, sym, ◌∙◌, List, [], ◌∷◌, ◌++◌, min, ltb, arith, length,
  take, length-append, length-take, u64_max,
}
use rust_forge.Proxy.Capture.{CaptureState, default, record_within}

-- The whole body.
abbrev pub body_of : List (List ℕ) → List ℕ
body_of [] = []
body_of (chunk ∷ chunks) = chunk ++ body_of chunks

-- What the capture of a body is, said of the body as a whole.
pub record Captures (limit : ℕ) (body : List ℕ) (state : CaptureState) : Type 0 where
  pub prefix : state.bytes ≡ take limit body
  pub size : state.wire_size ≡ min u64_max (length body)
  pub flag : state.truncated ≡ ltb limit (length body)
  pub peak : state.peak_buffered ≤ limit

take-append : (n : ℕ) (xs ys : List ℕ) → take n (xs ++ ys) ≡ take n xs ++ take (n - length xs) ys
take-append zero [] ys = refl
take-append (suc n) [] ys = let e : suc n - 0 ≡ suc n = omega arith in rw e
take-append zero (x ∷ xs) ys = let e : 0 - suc (length xs) ≡ 0 = omega arith in rw e
take-append (suc n) (x ∷ xs) ys =
    let e : suc n - suc (length xs) ≡ n - length xs = omega arith in
    rw e (ap (λ l. x ∷ l) (take-append n xs ys))

take-min : (n : ℕ) (xs : List ℕ) → take (min n (length xs)) xs ≡ take n xs
take-min zero xs = let e : min 0 (length xs) ≡ 0 = omega arith in rw e
take-min (suc n) [] = let e : min (suc n) 0 ≡ 0 = omega arith in rw e
take-min (suc n) (x ∷ xs) =
    let e : min (suc n) (suc (length xs)) ≡ suc (min n (length xs)) = omega arith in
    rw e (ap (λ l. x ∷ l) (take-min n xs))

kept :
    (limit : ℕ) (body chunk : List ℕ)
    → take limit body ++ take (min (limit - length (take limit body)) (length chunk)) chunk
      ≡ take limit (body ++ chunk)
kept limit body chunk =
    let room : limit - length (take limit body) ≡ limit - length body =
      omega (arith, length-take limit body) in
    rw room (rw take-min (sym (take-append limit body chunk)))

pub Captures-record :
    (limit : ℕ) (body chunk : List ℕ) (state : CaptureState)
    → Captures limit body state
    → Captures limit (body ++ chunk) (record_within limit state chunk)
unfolding record_within
Captures-record limit body chunk state h =
    let bytes : state.bytes ++ take (min (limit - length state.bytes) (length chunk)) chunk
        ≡ take limit (body ++ chunk) =
      ap (λ l. l ++ take (min (limit - length l) (length chunk)) chunk) h.prefix
      ∙ kept limit body chunk in
    let held : length state.bytes ≡ min limit (length body) =
      ap length h.prefix ∙ length-take limit body in
    record {
      prefix = bytes;
      size = omega (arith, h.size, length-append body chunk);
      flag = ground (arith, h.flag, held, length-append body chunk);
      peak = rw bytes (omega (arith, h.peak, length-take limit (body ++ chunk)));
    }

pub Captures-default : (limit : ℕ) → Captures limit [] default
Captures-default zero = record {
  prefix = refl;
  size = omega arith;
  flag = refl;
  peak = omega arith;
}
Captures-default (suc n) = record {
  prefix = refl;
  size = omega arith;
  flag = ground arith;
  peak = omega arith;
}
