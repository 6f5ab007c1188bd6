-- ===== src/Proxy/Capture/Whole.antt =====
-- A body that is small enough, from its frames to what is stored.
use rust_forge.Base.{
  ℕ, ◌*◌, ◌≤◌, ◌≡◌, refl, ap, ◌∙◌, subst, Bool, false, List, [], ◌∷◌, Option, arith, length,
  take_all, ltb,
}
use rust_forge.Proxy.Capture.{
  StreamCompletion, reading, complete, error, dropped, CaptureState, max_wire_capture_bytes, mark,
  marked, record_chunk, record_within,
}
use rust_forge.Proxy.Capture.Decode.{
  BodyMetadata, Codecs, Decoded, decode_ended, decode_complete, finish, without_identity,
}
use rust_forge.Proxy.Capture.Bounds.{Captures, body_of}
use rust_forge.Proxy.Capture.Stream.{
  CapturingBody, Polled, data_frame, ended, poll_frame, poll_all, chunks_of, tee_body_inner,
  tee-body,
}

-- The chunks as frames, and the end of the stream.
abbrev pub frames : List (List ℕ) → List Polled
frames [] = ended ∷ []
frames (chunk ∷ chunks) = data_frame chunk ∷ frames chunks

chunks_of-frames : (chunks : List (List ℕ)) → chunks_of (frames chunks) ≡ chunks
chunks_of-frames [] = refl
chunks_of-frames (chunk ∷ chunks) = ap (λ l. chunk ∷ l) (chunks_of-frames chunks)

ended-complete :
    (b : CapturingBody)
    → b.capture.completion ≡ reading
    → (poll_frame b ended).capture.completion ≡ complete
unfolding poll_frame rust_forge.Proxy.Capture.Stream.finish mark
ended-complete b h = ground arith

frames-complete :
    (b : CapturingBody) (chunks : List (List ℕ))
    → b.capture.completion ≡ reading
    → (poll_all b (frames chunks)).capture.completion ≡ complete
unfolding poll_all poll_frame record_chunk record_within
frames-complete b [] h = ended-complete b h
frames-complete b (chunk ∷ chunks) h = frames-complete (poll_frame b (data_frame chunk)) chunks h

tee-reading :
    (expected : Option ℕ) (callback : Bool)
    → (tee_body_inner expected false callback).capture.completion ≡ reading
unfolding tee_body_inner
tee-reading expected callback = refl

fits : (n : ℕ) → n ≤ 1024 * 1024 → ltb max_wire_capture_bytes n ≡ false
fits n h = ground arith

module _ (codecs : Codecs) where
  decoded_plain :
      (bytes : List ℕ) (m : BodyMetadata)
      → without_identity m.encodings ≡ []
      → ((decode_ended codecs complete bytes false m).0 ≡ bytes)
        × ((decode_ended codecs complete bytes false m).2 ≡ false)
  unfolding decode_ended decode_complete
  decoded_plain [] m h = (refl, refl)
  decoded_plain (b ∷ bs) m h = ground arith

  -- A body of at most one MiB without a content coding other than `identity`, however it is cut into
  -- chunks, is stored whole and not truncated once its stream has ended.
  pub stored_whole :
      (expected : Option ℕ) (callback : Bool) (chunks : List (List ℕ)) (m : BodyMetadata)
      → length (body_of chunks) ≤ 1024 * 1024
      → without_identity m.encodings ≡ []
      → let r =
          finish codecs
            (poll_all (tee_body_inner expected false callback) (frames chunks)).capture
            m in
        (r.bytes ≡ body_of chunks) × (r.truncated ≡ false)
  unfolding finish
  stored_whole expected callback chunks m small plain =
      let polls = frames chunks in
      let state : CaptureState =
        (poll_all (tee_body_inner expected false callback) polls).capture in
      let captured : Captures max_wire_capture_bytes (body_of chunks) state =
        subst (λ l. Captures max_wire_capture_bytes (body_of l) state) (chunks_of-frames chunks)
          (tee-body expected false callback polls).0 in
      let finished : state.completion ≡ complete =
        frames-complete (tee_body_inner expected false callback) chunks
          (tee-reading expected callback) in
      let uncut : state.truncated ≡ false = captured.flag ∙ fits (length (body_of chunks)) small in
      let bytes : state.bytes ≡ body_of chunks =
        captured.prefix ∙ take_all max_wire_capture_bytes (body_of chunks) small in
      let same : decode_ended codecs state.completion state.bytes state.truncated m
          ≡ decode_ended codecs complete state.bytes false m =
        ap (λ c. decode_ended codecs c state.bytes state.truncated m) finished
        ∙ ap (λ t. decode_ended codecs complete state.bytes t m) uncut in
      let plain_end = decoded_plain state.bytes m plain in
      (
        ap (λ (d : Decoded). d.0) same ∙ plain_end.0 ∙ bytes,
        ap (λ (d : Decoded). d.2) same ∙ plain_end.1,
      )
