-- ===== src/Proxy/Capture/Decode.antt =====
-- body_capture.rs: what is stored of a capture once its stream has ended. The decompressors and
-- the UTF-8 check are parameters.
use rust_forge.Base.{
  ℕ, suc, ◌+◌, ◌*◌, Bool, true, false, not, ◌||◌, ◌&&◌, List, [], ◌∷◌, Option, none, some, max, leb,
  ltb, ◌==◌, if◌then◌else◌, length, take, all,
}
use mathlib.Core.List.{reverse}
use rust_forge.Text.{
  Text, codes, text_eq, one_of, trim, to_ascii_lowercase, split, first_part, starts_with, ends_with,
  is_control, one_char_of,
}
use rust_forge.Proxy.Capture.{
  max_decoded_capture_bytes, StreamCompletion, reading, complete, error, dropped, CaptureState,
  default, record_chunk, mark, to_i64,
}

pub record BodyMetadata : Type 0 where
  pub encodings : List Text
  pub content_type : Option Text

pub data DecodeStatus : Type 0 where
  not_received : DecodeStatus
  empty : DecodeStatus
  identity_text : DecodeStatus
  identity_binary : DecodeStatus
  decoded_text : DecodeStatus
  decoded_binary : DecodeStatus
  decode_failed : DecodeStatus
  unsupported_encoding : DecodeStatus
  encoded_truncated : DecodeStatus
  decode_truncated : DecodeStatus
  stream_error : DecodeStatus
  stream_incomplete : DecodeStatus

pub record CapturedBody : Type 0 where
  pub bytes : List ℕ
  pub wire_size : ℕ
  pub captured_size : ℕ
  pub truncated : Bool
  pub decode_status : DecodeStatus

-- A reader: the bytes that it gives, and whether it fails after them.
pub record Reader : Type 0 where
  pub bytes : List ℕ
  pub fails : Bool

-- The decompressors of the crates `flate2` and `brotli`, and the UTF-8 reader of the standard
-- library: the text of the bytes, where they are one.
pub record Codecs : Type 0 where
  pub gzip : List ℕ → Reader
  pub brotli : List ℕ → Reader
  pub zlib : List ℕ → Reader
  pub deflate : List ℕ → Reader
  pub from_utf8 : List ℕ → Option Text

pub record DecodedLayer : Type 0 where
  pub bytes : List ℕ
  pub truncated : Bool

-- `read_limited` for a limit: at most one byte past it is read, to see whether there is more, so a
-- failure further on is not met.
unfoldable pub read_within : ℕ → Reader → Option DecodedLayer
read_within limit reader =
    let bytes = take (limit + 1) reader.bytes in
    if reader.fails && leb (length reader.bytes) limit
    then none
    else some (record { bytes = take limit bytes; truncated = ltb limit (length bytes) })

unfoldable pub read_limited : Reader → Option DecodedLayer
read_limited reader = read_within max_decoded_capture_bytes reader

abbrev pub text_types : List Text
text_types =
    codes "application/json"
    ∷ codes "application/xml"
    ∷ codes "application/javascript"
    ∷ codes "application/x-javascript"
    ∷ codes "application/x-www-form-urlencoded"
    ∷ codes "application/graphql"
    ∷ codes "image/svg+xml"
    ∷ []

abbrev pub binary_types : List Text
binary_types =
    codes "application/octet-stream"
    ∷ codes "application/pdf"
    ∷ codes "application/zip"
    ∷ codes "application/gzip"
    ∷ codes "application/wasm"
    ∷ codes "application/x-protobuf"
    ∷ []

abbrev pub mime_of : Text → Text
mime_of content_type = to_ascii_lowercase (trim (first_part (split (λ c. c == b';') content_type)))

-- What the media type decides, if it does.
unfoldable pub mime_is_text : Text → Option Bool
mime_is_text mime =
    if starts_with (codes "text/") mime
      || ends_with (codes "+json") mime
      || ends_with (codes "+xml") mime
      || one_of text_types mime
    then some true
    else if starts_with (codes "image/") mime
        || starts_with (codes "audio/") mime
        || starts_with (codes "video/") mime
        || starts_with (codes "font/") mime
        || one_of binary_types mime
    then some false
    else none

-- The control characters other than the blank ones.
abbrev pub is_odd_control : ℕ → Bool
is_odd_control c = is_control c && not (one_char_of (b'\r' ∷ b'\n' ∷ b'\t' ∷ 0x0c ∷ []) c)

abbrev pub count_controls : Text → ℕ
count_controls [] = 0
count_controls (c ∷ s) = let rest = count_controls s in if is_odd_control c then suc rest else rest

-- Where no media type decides: at most one character in a hundred is a control character.
unfoldable pub few_controls : Text → Bool
few_controls text = leb (count_controls text * 100) (max (length text) 1)

abbrev pub without_identity : List Text → List Text
without_identity [] = []
without_identity (e ∷ es) =
    let rest = without_identity es in if text_eq e (codes "identity") then rest else e ∷ rest

unfoldable pub is_supported : Text → Bool
is_supported encoding =
    one_of (codes "gzip" ∷ codes "x-gzip" ∷ codes "deflate" ∷ codes "br" ∷ []) encoding

abbrev pub status_of : Bool → Bool → DecodeStatus
status_of false true = identity_text
status_of false false = identity_binary
status_of true true = decoded_text
status_of true false = decoded_binary

abbrev pub Decoded : Type 0
Decoded = List ℕ × DecodeStatus × Bool

module _ (codecs : Codecs) where
  unfoldable pub decode_one : List ℕ → Text → Option DecodedLayer
  decode_one bytes encoding =
      if one_of (codes "gzip" ∷ codes "x-gzip" ∷ []) encoding
      then read_limited (codecs.gzip bytes)
      else if text_eq encoding (codes "br")
      then read_limited (codecs.brotli bytes)
      else if text_eq encoding (codes "deflate")
      then elim (read_limited (codecs.zlib bytes)) [
        | some layer ↦ some layer
        | none ↦ read_limited (codecs.deflate bytes)
      ]
      else none

  abbrev pub mime_decides : Option Text → Option Bool
  mime_decides none = none
  mime_decides (some content_type) = mime_is_text (mime_of content_type)

  unfoldable pub is_text : List ℕ → Option Text → Bool
  is_text bytes content_type = elim (codecs.from_utf8 bytes) [
    | none ↦ false
    | some text ↦ elim (mime_decides content_type) [ some b ↦ b | none ↦ few_controls text ]
  ]

  unfoldable pub classify_status : Bool → List ℕ → Option Text → DecodeStatus
  classify_status decoded bytes content_type = status_of decoded (is_text bytes content_type)

  -- After a layer that passes the limit: the layers below it are not decoded.
  abbrev pub cut_off : Option Text → List Text → List ℕ → Decoded
  cut_off content_type [] bytes = (bytes, classify_status true bytes content_type, true)
  cut_off content_type (_ ∷ _) bytes = (bytes, decode_truncated, true)

  -- The loop over the encodings, the last one first.
  unfoldable pub decode_layers : Option Text → List Text → List ℕ → Decoded
  decode_layers content_type [] decoded =
      (decoded, classify_status true decoded content_type, false)
  decode_layers content_type (encoding ∷ encodings) decoded = elim (decode_one decoded encoding) [
    | none ↦ (decoded, decode_failed, false)
    | some layer ↦
        let rest = decode_layers content_type encodings layer.bytes in
        if layer.truncated then cut_off content_type encodings layer.bytes else rest
  ]

  -- The part of `decode_complete` for a body with encodings.
  unfoldable pub decode_encoded : List Text → List ℕ → Bool → Option Text → Decoded
  decode_encoded encodings bytes wire_truncated content_type =
      if not (all is_supported encodings)
      then (bytes, unsupported_encoding, false)
      else if wire_truncated
      then (bytes, encoded_truncated, false)
      else decode_layers content_type (reverse encodings) bytes

  unfoldable pub decode_complete : List ℕ → Bool → BodyMetadata → Decoded
  decode_complete bytes wire_truncated metadata = elim (without_identity metadata.encodings) [
    | [] ↦ (bytes, classify_status false bytes metadata.content_type, false)
    | e ∷ es ↦ decode_encoded (e ∷ es) bytes wire_truncated metadata.content_type
  ]

  -- The bytes, the status and whether something is missing, by how the stream ended.
  unfoldable pub decode_ended : StreamCompletion → List ℕ → Bool → BodyMetadata → Decoded
  decode_ended error bytes truncated metadata = (bytes, stream_error, true)
  decode_ended dropped bytes truncated metadata = (bytes, stream_incomplete, true)
  decode_ended reading bytes truncated metadata = (bytes, stream_incomplete, true)
  decode_ended complete [] truncated metadata = ([], empty, truncated)
  decode_ended complete (b ∷ bs) truncated metadata =
      let (bytes, status, decoded_truncated) = decode_complete (b ∷ bs) truncated metadata in
      (bytes, status, truncated || decoded_truncated)

  -- `finish` and `decode_capture`.
  unfoldable pub finish : CaptureState → BodyMetadata → CapturedBody
  finish state metadata =
      let (bytes, status, truncated) =
        decode_ended state.completion state.bytes state.truncated metadata in
      record {
        bytes = bytes;
        wire_size = to_i64 state.wire_size;
        captured_size = to_i64 (length bytes);
        truncated = truncated;
        decode_status = status;
      }

  unfoldable pub capture_complete_bytes : List ℕ → BodyMetadata → CapturedBody
  capture_complete_bytes bytes metadata =
      finish (mark (record_chunk default bytes) complete) metadata
