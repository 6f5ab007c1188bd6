-- ===== src/Tests/Bodies.antt =====
-- Captures of concrete bodies.
use mathlib.Core.List.{reverse}
use rust_forge.Base.{
  ℕ, ◌*◌, ◌≤◌, ◌≡◌, ◌≢◌, refl, sym, ◌∙◌, ◌⊎◌, true, false, List, [], ◌∷◌, none, some, arith, length,
}
use rust_forge.Text.{codes, one_of, is_control}
use rust_forge.Proxy.Capture.{CaptureState, complete, dropped, max_wire_capture_bytes}
use rust_forge.Proxy.Capture.Decode.{
  BodyMetadata, Codecs, decode_failed, decoded_text, unsupported_encoding, finish, without_identity,
  decode_ended, decode_complete, decode_encoded, decode_layers, decode_one, read_limited,
  read_within, is_supported, classify_status, is_text, few_controls, mime_is_text,
}
use rust_forge.Proxy.Capture.Bounds.{Captures, body_of}
use rust_forge.Proxy.Capture.Layers.{DecodesTo}
use rust_forge.Proxy.Capture.Outcomes.{finish-small, finish-whole}
use rust_forge.Proxy.Capture.Whole.{frames, stored_whole}
use rust_forge.Proxy.Capture.Stream.{
  Polled, data_frame, ended, pending, chunks_of, count_bool, tee_body_inner, poll_all, drop,
  callback_once, tee-body,
}

abbrev polls : List Polled
polls = data_frame (1 ∷ 2 ∷ []) ∷ pending ∷ data_frame (3 ∷ []) ∷ ended ∷ []

tee-body_example :
    Captures max_wire_capture_bytes
      (body_of (chunks_of polls))
      (poll_all (tee_body_inner (some 3) false true) polls).capture
    × Captures max_wire_capture_bytes
        (body_of (chunks_of polls))
        (drop (poll_all (tee_body_inner (some 3) false true) polls)).capture
tee-body_example = tee-body (some 3) false true polls

callback_once_example :
    ((poll_all (tee_body_inner (some 3) false true) polls).calls ≤ 1)
    × ((drop (poll_all (tee_body_inner (some 3) false true) polls)).calls ≡ count_bool true)
callback_once_example = callback_once (some 3) false true polls

-- Stand-ins for the decoders: gzip adds a byte in front, deflate changes nothing.
abbrev codecs : Codecs
codecs = record {
  gzip = λ bytes. record { bytes = 104 ∷ bytes; fails = false };
  brotli = λ bytes. record { bytes = []; fails = true };
  zlib = λ bytes. record { bytes = []; fails = true };
  deflate = λ bytes. record { bytes = bytes; fails = false };
  from_utf8 = λ bytes. some bytes;
}

abbrev metadata : BodyMetadata
metadata = record { encodings = codes "deflate" ∷ codes "gzip" ∷ []; content_type = none }

abbrev body : List ℕ
body = 105 ∷ []

abbrev state : CaptureState
state = record {
  wire_size = 1;
  bytes = 105 ∷ [];
  truncated = false;
  peak_buffered = 1;
  completion = complete;
}

state-Captures : Captures max_wire_capture_bytes body state
state-Captures = record { prefix = refl; size = omega arith; flag = refl; peak = omega arith }

finish-small_example :
    (length (finish codecs state metadata).bytes ≤ 1024 * 1024)
    × ((finish codecs state metadata).captured_size ≡ length (finish codecs state metadata).bytes)
finish-small_example = finish-small codecs body state metadata state-Captures

whole : (finish codecs state metadata).truncated ≡ false
unfolding finish decode_ended decode_complete decode_encoded decode_layers decode_one read_limited
    read_within is_supported one_of
whole = refl

stored : (finish codecs state metadata).decode_status ≡ decoded_text
unfolding finish decode_ended decode_complete decode_encoded decode_layers decode_one read_limited
    read_within is_supported one_of classify_status is_text few_controls mime_is_text is_control
stored = refl

decoded : (finish codecs state metadata).decode_status ≢ decode_failed
decoded e = let k : decoded_text ≡ decode_failed = sym stored ∙ e in cc k

supported : (finish codecs state metadata).decode_status ≢ unsupported_encoding
supported e = let k : decoded_text ≡ unsupported_encoding = sym stored ∙ e in cc k

finish-whole_example :
    (body ≡ [] × ((finish codecs state metadata).bytes ≡ []))
    ⊎ DecodesTo codecs
        (reverse (without_identity metadata.encodings))
        body
        (finish codecs state metadata).bytes
finish-whole_example =
    finish-whole codecs body state metadata state-Captures refl whole decoded supported

abbrev cut_state : CaptureState
cut_state = record state { completion = dropped }

abbrev plain_metadata : BodyMetadata
plain_metadata = record { encodings = codes "identity" ∷ []; content_type = none }

stored_whole_example :
    ((finish codecs
        (poll_all (tee_body_inner none false true) (frames ((1 ∷ 2 ∷ []) ∷ (3 ∷ []) ∷ []))).capture
        plain_metadata).bytes
      ≡ body_of ((1 ∷ 2 ∷ []) ∷ (3 ∷ []) ∷ []))
    × ((finish codecs
          (poll_all
            (tee_body_inner none false true)
            (frames ((1 ∷ 2 ∷ []) ∷ (3 ∷ []) ∷ []))).capture
          plain_metadata).truncated
        ≡ false)
stored_whole_example =
    stored_whole codecs none true ((1 ∷ 2 ∷ []) ∷ (3 ∷ []) ∷ []) plain_metadata (omega arith) refl
