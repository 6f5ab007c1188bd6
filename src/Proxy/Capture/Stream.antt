-- ===== src/Proxy/Capture/Stream.antt =====
-- body_capture.rs: the body that is teed, as the frames come and when it is dropped. The callback
-- is counted; `pending_callback` is the `Option` that it is taken from.
use mathlib.Core.List.{append_assoc, append-nil}
use rust_forge.Base.{
  ◌++◌, sym, subst, ℕ, ◌+◌, ◌≤◌, ◌≡◌, refl, Bool, true, false, List, [], ◌∷◌, Option, none, some,
  arith, ◌==◌, if◌then◌else◌, inl, inr, Bool-cases,
}
use rust_forge.Proxy.Capture.{
  CaptureState, default, StreamCompletion, complete, error, dropped, record_chunk, mark,
  max_wire_capture_bytes,
}
use rust_forge.Proxy.Capture.Bounds.{body_of, Captures, Captures-record, Captures-default}

pub record CapturingBody : Type 0 where
  pub capture : CaptureState
  pub pending_callback : Bool
  pub expected_wire_size : Option ℕ
  pub calls : ℕ

-- What `poll_frame` of the inner body answers.
pub data Polled : Type 0 where
  data_frame : List ℕ → Polled
  other_frame : Polled
  failed : Polled
  ended : Polled
  pending : Polled

-- `CapturingBody::finish`
unfoldable pub finish : CapturingBody → StreamCompletion → CapturingBody
finish body completion =
    let marked = record body { capture = mark body.capture completion } in
    if body.pending_callback
    then record marked { pending_callback = false; calls = body.calls + 1 }
    else marked

unfoldable pub poll_frame : CapturingBody → Polled → CapturingBody
poll_frame body (data_frame chunk) = record body { capture = record_chunk body.capture chunk }
poll_frame body other_frame = body
poll_frame body failed = finish body error
poll_frame body ended = finish body complete
poll_frame body pending = body

abbrev pub expects : Option ℕ → ℕ → Bool
expects none size = false
expects (some expected) size = size == expected

-- The `Drop` of the body.
unfoldable pub drop : CapturingBody → CapturingBody
drop body =
    finish body
      (if expects body.expected_wire_size body.capture.wire_size then complete else dropped)

-- `tee_body_inner`, for a body whose exact size is known or not and that may have ended already.
unfoldable pub tee_body_inner : Option ℕ → Bool → Bool → CapturingBody
tee_body_inner expected is_end_stream callback =
    let body : CapturingBody = record {
      capture = default;
      pending_callback = callback;
      expected_wire_size = expected;
      calls = 0;
    } in
    if is_end_stream then finish body complete else body

-- The polls of a consumer.
unfoldable pub poll_all : CapturingBody → List Polled → CapturingBody
poll_all body [] = body
poll_all body (p ∷ ps) = poll_all (poll_frame body p) ps

-- The chunks among the frames.
abbrev pub chunks_of : List Polled → List (List ℕ)
chunks_of [] = []
chunks_of (data_frame chunk ∷ ps) = chunk ∷ chunks_of ps
chunks_of (_ ∷ ps) = chunks_of ps

-- The callback was called as often as it was taken.
abbrev pub count_bool : Bool → ℕ
count_bool true = 1
count_bool false = 0

calls_step :
    (body : CapturingBody) (p : Polled)
    → (poll_frame body p).calls + count_bool (poll_frame body p).pending_callback
      ≡ body.calls + count_bool body.pending_callback
unfolding poll_frame finish
calls_step body p = ground arith

calls_poll_all :
    (body : CapturingBody) (ps : List Polled)
    → (poll_all body ps).calls + count_bool (poll_all body ps).pending_callback
      ≡ body.calls + count_bool body.pending_callback
unfolding poll_all
calls_poll_all body [] = refl
calls_poll_all body (p ∷ ps) =
    omega (arith, calls_step body p, calls_poll_all (poll_frame body p) ps)

tee_calls :
    (expected : Option ℕ) (ends callback : Bool)
    → (tee_body_inner expected ends callback).calls
        + count_bool (tee_body_inner expected ends callback).pending_callback
      ≡ count_bool callback
unfolding tee_body_inner finish
tee_calls expected ends callback = ground arith

drop_calls :
    (body : CapturingBody) → (drop body).calls ≡ body.calls + count_bool body.pending_callback
unfolding drop finish
drop_calls body = ground arith

count_bool_le : (b : Bool) → count_bool b ≤ 1
count_bool_le b = ground arith

-- Whatever frames come and wherever the consumer stops, the callback has been called at most once
-- before the body is dropped and, if there is one, exactly once after.
pub callback_once :
    (expected : Option ℕ) (is_end_stream callback : Bool) (polls : List Polled)
    → let body = poll_all (tee_body_inner expected is_end_stream callback) polls in
      (body.calls ≤ 1) × ((drop body).calls ≡ count_bool callback)
callback_once expected ends callback polls =
    let start = tee_body_inner expected ends callback in
    let total = calls_poll_all start polls in
    let taken = tee_calls expected ends callback in
    (
      omega (arith, total, taken, count_bool_le callback),
      omega (arith, total, taken, drop_calls (poll_all start polls)),
    )

Captures-mark :
    (body : List ℕ) (state : CaptureState) (c : StreamCompletion)
    → Captures max_wire_capture_bytes body state
    → Captures max_wire_capture_bytes body (mark state c)
unfolding mark
Captures-mark body state c h = record {
  prefix = h.prefix;
  size = h.size;
  flag = h.flag;
  peak = h.peak;
}

Captures-finish :
    (body : List ℕ) (b : CapturingBody) (c : StreamCompletion)
    → Captures max_wire_capture_bytes body b.capture
    → Captures max_wire_capture_bytes body (finish b c).capture
unfolding finish
Captures-finish body b c h = elim (Bool-cases b.pending_callback) [
  | inl e ↦ rw e (Captures-mark body b.capture c h)
  | inr e ↦ rw e (Captures-mark body b.capture c h)
]

poll_all-Captures :
    (body : List ℕ) (b : CapturingBody) (ps : List Polled)
    → Captures max_wire_capture_bytes body b.capture
    → Captures max_wire_capture_bytes (body ++ body_of (chunks_of ps)) (poll_all b ps).capture
unfolding poll_all poll_frame record_chunk
poll_all-Captures body b [] h =
    subst (λ l. Captures max_wire_capture_bytes l b.capture) (sym (append-nil body)) h
poll_all-Captures body b (data_frame chunk ∷ ps) h =
    subst (λ l. Captures max_wire_capture_bytes l (poll_all b (data_frame chunk ∷ ps)).capture)
      (append_assoc body chunk (body_of (chunks_of ps)))
      (poll_all-Captures (body ++ chunk) (poll_frame b (data_frame chunk)) ps
        (Captures-record max_wire_capture_bytes body chunk b.capture h))
poll_all-Captures body b (other_frame ∷ ps) h = poll_all-Captures body b ps h
poll_all-Captures body b (failed ∷ ps) h =
    poll_all-Captures body (finish b error) ps (Captures-finish body b error h)
poll_all-Captures body b (ended ∷ ps) h =
    poll_all-Captures body (finish b complete) ps (Captures-finish body b complete h)
poll_all-Captures body b (pending ∷ ps) h = poll_all-Captures body b ps h

tee-Captures :
    (expected : Option ℕ) (ends callback : Bool)
    → Captures max_wire_capture_bytes [] (tee_body_inner expected ends callback).capture
unfolding tee_body_inner
tee-Captures expected true callback =
    Captures-finish [] _ complete (Captures-default max_wire_capture_bytes)
tee-Captures expected false callback = Captures-default max_wire_capture_bytes

-- However a body comes in frames, and also once it is dropped, the capture holds its first bytes up
-- to the limit, its whole length (saturated at the largest u64) and the truncation flag exactly
-- where it is longer than the limit; it never held more than the limit.
pub tee-body :
    (expected : Option ℕ) (is_end_stream callback : Bool) (polls : List Polled)
    → let body = poll_all (tee_body_inner expected is_end_stream callback) polls in
      Captures max_wire_capture_bytes (body_of (chunks_of polls)) body.capture
      × Captures max_wire_capture_bytes (body_of (chunks_of polls)) (drop body).capture
unfolding drop
tee-body expected ends callback polls =
    let captured =
      poll_all-Captures [] (tee_body_inner expected ends callback) polls
        (tee-Captures expected ends callback) in
    (captured, Captures-finish _ _ _ captured)
