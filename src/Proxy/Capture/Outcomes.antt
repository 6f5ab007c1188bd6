-- ===== src/Proxy/Capture/Outcomes.antt =====
-- What is stored of a capture: its size, and when it is the whole body.
use mathlib.Core.List.{reverse}
use rust_forge.Base.{
  ℕ, ◌*◌, ◌≤◌, ◌≡◌, ◌≢◌, refl, ap, sym, subst, ◌∙◌, ◌⊎◌, Bool, true, false, List, [], ◌∷◌, arith,
  ltb-false, length, length-take, take_all, or-eq-false, inl, inr,
}
use rust_forge.Proxy.Capture.{
  CaptureState, StreamCompletion, reading, complete, error, dropped, max_wire_capture_bytes,
  max_decoded_capture_bytes,
}
use rust_forge.Proxy.Capture.Decode.{
  BodyMetadata, Codecs, Decoded, decode_failed, stream_error, stream_incomplete,
  unsupported_encoding, encoded_truncated, decode_layers, decode_encoded, decode_complete,
  decode_ended, finish, without_identity, classify_status,
}
use rust_forge.Proxy.Capture.Bounds.{Captures}
use rust_forge.Proxy.Capture.Layers.{DecodesTo, decode_layers-small, decode_layers-DecodesTo}

module _ (codecs : Codecs) where
  -- How `decode_complete` comes to its result.
  abbrev CompleteCases : List ℕ → Bool → BodyMetadata → Type 0
  CompleteCases bytes cut m =
      let r = decode_complete codecs bytes cut m in
      let encodings = without_identity m.encodings in
      ((encodings ≡ []) × (r ≡ (bytes, classify_status codecs false bytes m.content_type, false)))
      ⊎ ((encodings ≢ []) × (r ≡ (bytes, unsupported_encoding, false)))
      ⊎ ((encodings ≢ []) × (cut ≡ true) × (r ≡ (bytes, encoded_truncated, false)))
      ⊎ ((encodings ≢ [])
          × (cut ≡ false)
          × (r ≡ decode_layers codecs m.content_type (reverse encodings) bytes))

  complete_cases : (bytes : List ℕ) (cut : Bool) (m : BodyMetadata) → CompleteCases bytes cut m
  unfolding decode_complete decode_encoded
  complete_cases bytes cut m = ground arith

  decode_ended-small :
      (c : StreamCompletion) (bytes : List ℕ) (cut : Bool) (m : BodyMetadata)
      → length bytes ≤ max_decoded_capture_bytes
      → length (decode_ended codecs c bytes cut m).0 ≤ max_decoded_capture_bytes
  unfolding decode_ended
  decode_ended-small reading bytes cut m h = h
  decode_ended-small error bytes cut m h = h
  decode_ended-small dropped bytes cut m h = h
  decode_ended-small complete [] cut m h = h
  decode_ended-small complete (b ∷ bs) cut m h =
      let cases : CompleteCases (b ∷ bs) cut m = complete_cases (b ∷ bs) cut m in
      elim cases [
        | inl c ↦ rw c.1 h
        | inr (inl c) ↦ rw c.1 h
        | inr (inr (inl c)) ↦ rw c.2 h
        | inr (inr (inr c)) ↦ rw c.2 (
            decode_layers-small codecs m.content_type (reverse (without_identity m.encodings))
              (b ∷ bs) h)
      ]

  decode_ended-whole :
      (bytes : List ℕ) (cut : Bool) (m : BodyMetadata)
      → let r = decode_ended codecs complete bytes cut m in
        r.2 ≡ false
        → r.1 ≢ decode_failed
        → r.1 ≢ unsupported_encoding
        → (cut ≡ false)
          × ((bytes ≡ [] × (r.0 ≡ []))
              ⊎ DecodesTo codecs (reverse (without_identity m.encodings)) bytes r.0)
  unfolding decode_ended
  decode_ended-whole [] cut m h k u = (h, inl (refl, refl))
  decode_ended-whole (b ∷ bs) cut m h k u =
      let flags : (cut ≡ false) × ((decode_complete codecs (b ∷ bs) cut m).2 ≡ false) =
        or-eq-false _ _ h in
      let cases : CompleteCases (b ∷ bs) cut m = complete_cases (b ∷ bs) cut m in
      (
        flags.0,
        inr (elim cases [
          | inl c ↦ rw c.0 (rw c.1)
          | inr (inl c) ↦ absurd (u (ap (λ (d : Decoded). d.1) c.1))
          | inr (inr (inl c)) ↦ cc (flags.0, c.1)
          | inr (inr (inr c)) ↦ rw c.2 (
              decode_layers-DecodesTo codecs m.content_type (reverse (without_identity m.encodings))
                (b ∷ bs) (rw c.2 at flags.1) (rw c.2 at k))
        ]),
      )

  -- What is stored of the capture of a body never holds more bytes than the limit, and records their
  -- number.
  pub finish-small :
      (body : List ℕ) (state : CaptureState) (m : BodyMetadata)
      → Captures max_wire_capture_bytes body state
      → let r = finish codecs state m in
        (length r.bytes ≤ 1024 * 1024) × (r.captured_size ≡ length r.bytes)
  unfolding finish
  finish-small body state m h =
      let held : length state.bytes ≤ max_decoded_capture_bytes =
        omega (arith, ap length h.prefix, length-take max_wire_capture_bytes body) in
      let small = decode_ended-small state.completion state.bytes state.truncated m held in
      (small, omega (arith, small))

  -- A body that was captured and streamed to its end and is stored as not truncated, with a status that is
  -- neither a failed nor an unsupported decoding, is stored whole: the stored bytes are the body
  -- decoded through all its encodings, last one first, each layer read to its end without a
  -- failure. An empty body is stored as empty.
  pub finish-whole :
      (body : List ℕ) (state : CaptureState) (m : BodyMetadata)
      → Captures max_wire_capture_bytes body state
      → state.completion ≡ complete
      → (finish codecs state m).truncated ≡ false
      → (finish codecs state m).decode_status ≢ decode_failed
      → (finish codecs state m).decode_status ≢ unsupported_encoding
      → (body ≡ [] × ((finish codecs state m).bytes ≡ []))
        ⊎ DecodesTo codecs
            (reverse (without_identity m.encodings))
            body
            (finish codecs state m).bytes
  unfolding finish
  finish-whole body state m h c = rw c (λ t k u.
      let (uncut, stored) = decode_ended-whole state.bytes state.truncated m t k u in
      let short = ltb-false max_wire_capture_bytes (length body) (sym h.flag ∙ uncut) in
      let same : state.bytes ≡ body = h.prefix ∙ take_all max_wire_capture_bytes body short in
      let out = (decode_ended codecs complete state.bytes state.truncated m).0 in
      subst
        (λ b.
          (b ≡ [] × (out ≡ [])) ⊎ DecodesTo codecs (reverse (without_identity m.encodings)) b out)
        same stored)

  -- A body whose stream failed, or was dropped or is still read, is stored as truncated, with the
  -- bytes that were captured and a status of its own.
  pub finish-incomplete :
      (state : CaptureState) (m : BodyMetadata)
      → state.completion ≢ complete
      → let r = finish codecs state m in
        (r.truncated ≡ true)
        × (r.bytes ≡ state.bytes)
        × ((state.completion ≡ error) × (r.decode_status ≡ stream_error)
            ⊎ (state.completion ≢ error) × (r.decode_status ≡ stream_incomplete))
  unfolding finish decode_ended
  finish-incomplete state m h = ground arith
