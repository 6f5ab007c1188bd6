-- ===== src/Proxy/Capture.antt =====
-- src-tauri/src/proxy/body_capture.rs: the bounded capture of a body that streams through the
-- proxy. The mutex of the handle is not modelled as one: each method runs under it alone, so it is
-- a function of the state, and a poisoned lock is left out.
pub mod Decode
pub mod Stream
pub mod Bounds
pub mod Layers
pub mod Outcomes
pub mod Whole
pub mod Metadata
use rust_forge.Base.{
  ℕ, ◌+◌, ◌-◌, ◌*◌, Bool, true, false, ◌||◌, List, [], ◌∷◌, ◌++◌, Option, none, some, min, max, ltb,
  ◌==◌, if◌then◌else◌, length, take, saturating_add, u64_max, i64_max, leb,
}

abbrev pub max_wire_capture_bytes : ℕ
max_wire_capture_bytes = 1024 * 1024

abbrev pub max_decoded_capture_bytes : ℕ
max_decoded_capture_bytes = 1024 * 1024

pub data StreamCompletion : Type 0 where
  reading : StreamCompletion
  complete : StreamCompletion
  error : StreamCompletion
  dropped : StreamCompletion

pub record CaptureState : Type 0 where
  pub wire_size : ℕ
  pub bytes : List ℕ
  pub truncated : Bool
  pub peak_buffered : ℕ
  pub completion : StreamCompletion

abbrev pub default : CaptureState
default = record {
  wire_size = 0;
  bytes = [];
  truncated = false;
  peak_buffered = 0;
  completion = reading;
}

-- `CaptureHandle::record`, for a limit on the bytes that are kept.
unfoldable pub record_within : ℕ → CaptureState → List ℕ → CaptureState
record_within limit state chunk =
    let retained = min (limit - length state.bytes) (length chunk) in
    let bytes = state.bytes ++ take retained chunk in
    record state {
      wire_size = saturating_add u64_max state.wire_size (length chunk);
      bytes = bytes;
      peak_buffered = max state.peak_buffered (length bytes);
      truncated = state.truncated || ltb retained (length chunk);
    }

pub record_chunk : CaptureState → List ℕ → CaptureState
record_chunk = record_within max_wire_capture_bytes

abbrev pub marked : StreamCompletion → StreamCompletion → StreamCompletion
marked reading completion = completion
marked old _ = old

-- `CaptureHandle::mark`: the first completion stays.
unfoldable pub mark : CaptureState → StreamCompletion → CaptureState
mark state completion = record state { completion = marked state.completion completion }

-- `i64::try_from(n).unwrap_or(i64::MAX)`
abbrev pub to_i64 : ℕ → ℕ
to_i64 n = min n i64_max

pub record CapturedWireBody : Type 0 where
  pub bytes : List ℕ
  pub wire_size : ℕ
  pub captured_size : ℕ
  pub truncated : Bool

unfoldable pub capture_complete_wire_bytes : List ℕ → CapturedWireBody
capture_complete_wire_bytes bytes =
    let retained = min (length bytes) max_wire_capture_bytes in
    record {
      bytes = take retained bytes;
      wire_size = to_i64 (length bytes);
      captured_size = to_i64 retained;
      truncated = ltb retained (length bytes);
    }
