-- ===== src/Proxy/Capture/Metadata.antt =====
-- body_capture.rs: `BodyMetadata::from_headers` and the stored names of `DecodeStatus`. The header
-- map gives the values of a header in their order; a value is none where `to_str` fails.

use mathlib.Core.List.{append_assoc}
use rust_forge.Base.{
  ℕ, ◌≡◌, refl, ap, ◌∙◌, Bool, true, false, List, [], ◌∷◌, ◌++◌, Option, none, some, ◌==◌,
  if◌then◌else◌, Bool-cases, inl, inr,
}
use rust_forge.Text.{Text, codes, trim, is_empty, to_ascii_lowercase, split}
use rust_forge.Proxy.Capture.Decode.{
  BodyMetadata, CapturedBody, DecodeStatus, not_received, empty, identity_text, identity_binary,
  decoded_text, decoded_binary, decode_failed, unsupported_encoding, encoded_truncated,
  decode_truncated, stream_error, stream_incomplete,
}

-- The pieces of one value, trimmed, the empty ones left out, in lower case.
unfoldable pub named : List Text → List Text
named [] = []
named (piece ∷ pieces) =
    let rest = named pieces in
    if is_empty (trim piece) then rest else to_ascii_lowercase (trim piece) ∷ rest

unfoldable pub encodings_of : List (Option Text) → List Text
encodings_of [] = []
encodings_of (none ∷ values) = encodings_of values
encodings_of (some value ∷ values) = named (split (λ c. c == b',') value) ++ encodings_of values

-- `headers.get`, the first value
abbrev pub first_value : List (Option Text) → Option Text
first_value [] = none
first_value (value ∷ _) = value

unfoldable pub from_headers :
    (content_encoding : List (Option Text)) → (content_type : List (Option Text)) → BodyMetadata
from_headers content_encoding content_type = record {
  encodings = encodings_of content_encoding;
  content_type = first_value content_type;
}

-- `CapturedBody::not_received`
abbrev pub body_not_received : CapturedBody
body_not_received = record {
  bytes = [];
  wire_size = 0;
  captured_size = 0;
  truncated = false;
  decode_status = not_received;
}

unfoldable pub as_str : DecodeStatus → Text
as_str not_received = codes "not_received"
as_str empty = codes "empty"
as_str identity_text = codes "identity_text"
as_str identity_binary = codes "identity_binary"
as_str decoded_text = codes "decoded_text"
as_str decoded_binary = codes "decoded_binary"
as_str decode_failed = codes "decode_failed"
as_str unsupported_encoding = codes "unsupported_encoding"
as_str encoded_truncated = codes "encoded_truncated"
as_str decode_truncated = codes "decode_truncated"
as_str stream_error = codes "stream_error"
as_str stream_incomplete = codes "stream_incomplete"

named-append : (xs ys : List Text) → named (xs ++ ys) ≡ named xs ++ named ys
unfolding named
named-append [] ys = refl
named-append (x ∷ xs) ys = elim (Bool-cases (is_empty (trim x))) [
  | inl e ↦ rw e (named-append xs ys)
  | inr e ↦ rw e (ap (λ l. to_ascii_lowercase (trim x) ∷ l) (named-append xs ys))
]

-- A split gives at least one piece.
split-cons : (p : ℕ → Bool) (s : Text) → (w : Text) × (ws : List Text) × (split p s ≡ w ∷ ws)
unfolding split
split-cons p [] = ([], [], refl)
split-cons p (c ∷ s) = elim (Bool-cases (p c)) [
  | inl e ↦ ([], split p s, rw e refl)
  | inr e ↦ let (w, ws, r) = split-cons p s in (c ∷ w, ws, rw (e, r) refl)
]

split-append :
    (p : ℕ → Bool) (s t : Text) (c : ℕ)
    → p c ≡ true
    → split p (s ++ (c ∷ t)) ≡ split p s ++ split p t
unfolding split
split-append p [] t c h = rw h refl
split-append p (d ∷ s) t c h =
    let ih = split-append p s t c h in
    let (w, ws, r) = split-cons p s in
    elim (Bool-cases (p d)) [ inl e ↦ rw e (ap (λ l. [] ∷ l) ih) | inr e ↦ rw (e, ih, r) refl ]

-- Content codings in two headers and in one that joins their values by a comma are read the same.
pub from_headers_joined :
    (a b : Text) (values : List (Option Text)) (content_type : List (Option Text))
    → from_headers (some (a ++ (b',' ∷ b)) ∷ values) content_type
      ≡ from_headers (some a ∷ some b ∷ values) content_type
unfolding from_headers encodings_of
from_headers_joined a b values content_type =
    let comma = λ (c : ℕ). c == b',' in
    let joined : named (split comma (a ++ (b',' ∷ b)))
        ≡ named (split comma a) ++ named (split comma b) =
      ap named (split-append comma a b b',' refl) ∙ named-append (split comma a) (split comma b) in
    ap
      (λ l. record {
        encodings = l ++ encodings_of values;
        content_type = first_value content_type;
      })
      joined
    ∙ ap (λ l. record { encodings = l; content_type = first_value content_type })
        (append_assoc (named (split comma a)) (named (split comma b)) (encodings_of values))
