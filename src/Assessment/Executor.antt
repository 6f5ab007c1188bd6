-- ===== src/Assessment/Executor.antt =====
-- src-tauri/src/assessment/executor.rs: how a run sends one request to its target. What the world
-- answers during one call (the cancel flag, the database, the transport) is a `World`; times are
-- milliseconds, ids are natural numbers.
mod Data
pub mod Unsent
pub mod Limits
pub mod Stops
pub mod Secrets
unfoldable pub use Data.*
use rust_forge.Base.{
  ℕ, ℤ, pos_part, ◌+◌, ◌-◌, ◌*◌, Bool, true, false, not, ◌&&◌, ◌||◌, List, [], ◌∷◌, ◌++◌, Option,
  none, some, min, Result, ok, err, ◌>>=◌, ◌>>◌, guard, ok_or, map_err, ltb, leb, ◌==◌,
  if◌then◌else◌, saturating_add, u8_max, is_some_and, is_some,
}
use rust_forge.Text.{Text, codes, text_eq, is_empty, byte_len, decimal}
use rust_forge.Authorization.{AuthorizationError}
use rust_forge.Authorization.Url.{UrlLib}
use rust_forge.Authorization.Scope.{ScopePolicy, normalized_entries}
use rust_forge.Assessment.Policy.{
  PolicyRejection, ReplayHeader, AssessmentPolicy, AssessmentRequestCandidate, authorize,
  has_line_break,
}
use rust_forge.Assessment.Budget.{
  RequestPhase, RequestBudget, reserve_request, record_response_bytes, remaining_response_bytes,
  max_response_bytes,
}

abbrev pub texts_eq : List Text → List Text → Bool
texts_eq [] [] = true
texts_eq [] (_ ∷ _) = false
texts_eq (_ ∷ _) [] = false
texts_eq (s ∷ ss) (t ∷ ts) = text_eq s t && texts_eq ss ts

-- `current_revision != Some(identity.revision)` for an identity that is configured.
unfoldable pub check_revision : World → Option RuntimeIdentity → Result ExecuteError (Unit {0})
check_revision w none = ok tt
check_revision w (some i) = do
  found ← w.current_revision i.profile_id
  guard (is_some_and (λ r. r == i.revision) found) contract_drift

-- The scope that `recheck_contract` stores.
unfoldable pub recheck_contract : World → AssessmentExecutor → Result ExecuteError ScopePolicy
recheck_contract w x = do
  guard (text_eq w.registry_hash x.preview.template_registry_hash) contract_drift
  guard w.is_connected failed
  scope ← map_err (λ _. contract_drift) w.current_scope
  guard (texts_eq (normalized_entries scope) x.preview.normalized_scope) contract_drift
  guard w.is_ai_current contract_drift
  check_revision w x.identity_a
  check_revision w x.identity_b
  ok scope

abbrev pub overridden : Option Text → ReplayHeader → ReplayHeader
overridden none header = header
overridden (some value) header = record header { value = value }

abbrev pub with_identity : RuntimeIdentity → List ReplayHeader → Option Text → RequestHeaders
with_identity i extra auth_override = record {
  live = extra ++ overridden auth_override (live_header i) ∷ [];
  audit = extra ++ audit_header i ∷ [];
  context = request_hash_context i;
}

abbrev pub identity_headers :
    Option RuntimeIdentity → List ReplayHeader → Option Text → Result ExecuteError RequestHeaders
identity_headers none extra auth_override = err identity_missing
identity_headers (some i) extra auth_override = ok (with_identity i extra auth_override)

unfoldable pub headers :
    AssessmentExecutor
    → IdentitySelection
    → List ReplayHeader
    → Option Text
    → Result ExecuteError RequestHeaders
headers x anonymous extra auth_override =
    ok (record { live = extra; audit = extra; context = codes "anonymous" })
headers x identity_a extra auth_override = identity_headers x.identity_a extra auth_override
headers x identity_b extra auth_override = identity_headers x.identity_b extra auth_override

unfoldable pub wait_for_rate_slot : World → AssessmentExecutor → Result ExecuteError (Unit {0})
wait_for_rate_slot w x = do
  guard (not w.cancelled_before_wait) assessment_cancelled
  elim x.last_request_started [
    | none ↦ ok tt
    | some _ ↦
        if leb x.request_interval w.elapsed
        then ok tt
        else guard (not w.cancelled_in_wait) assessment_cancelled
  ]

abbrev pub is_unstable : ReplayRun → Bool
is_unstable run =
    is_some_and (λ s. leb 500 s) run.status
    || is_some_and (λ code. text_eq code (codes "TIMEOUT")) run.error_code

abbrev pub stop_of : ℕ → ℕ → Option StopCondition
stop_of failures left =
    if leb 3 failures
    then some target_unstable
    else if left == 0
    then some response_budget_exhausted
    else none

unfoldable pub observe_stop_condition :
    AssessmentExecutor → ReplayRun → AssessmentExecutor × Option StopCondition
observe_stop_condition x run =
    if is_some_and (λ s. s == 429) run.status
    then (x, some rate_limited)
    else let failures =
        if is_unstable run then saturating_add u8_max x.consecutive_target_failures 1 else 0 in
      (
        record x { consecutive_target_failures = failures },
        stop_of failures (remaining_response_bytes x.budget),
      )

abbrev pub Reply : Type 0
Reply = AssessmentExecutor × Result ExecuteError (ReplayRun × Option StopCondition)

-- From the response on: the bytes, the counters in the database, the stop condition.
unfoldable pub after_response : World → AssessmentExecutor → ReplayRun → Reply
after_response w x run =
    let (budget, recorded) = record_response_bytes (pos_part run.resp_wire_size) x.budget in
    let x' = record x { budget = budget } in
    elim recorded [
      | err e ↦ (x', err (policy e))
      | ok _ ↦
          if w.is_persisted
          then (let (x'', stop) = observe_stop_condition x' run in (x'', ok (run, stop)))
          else (x', err failed)
    ]

abbrev pub request_of : AssessmentExecutor → RequestArgs → RequestHeaders → AssessmentReplayRequest
request_of x a h = record {
  method = a.method;
  url = a.url;
  live_headers = h.live;
  audit_headers = h.audit;
  request_hash_context = h.context ++ codes ":" ++ a.hash_suffix;
  max_response_bytes = min max_response_bytes (remaining_response_bytes x.budget);
}

-- From the reservation on: the request is sent once the budget has granted it.
unfoldable pub reserve_and_send : World → AssessmentExecutor → RequestArgs → RequestHeaders → Reply
reserve_and_send w x a h =
    let (budget, reserved) = reserve_request a.phase x.budget in
    elim reserved [
      | err e ↦ (record x { budget = budget }, err (policy e))
      | ok _ ↦
          let x' = record x { budget = budget; last_request_started = some w.now } in
          elim (w.send (request_of x' a h)) [
            | err e ↦ (x', err e)
            | ok run ↦ after_response w x' run
          ]
    ]

abbrev pub candidate_of : RequestArgs → RequestHeaders → AssessmentRequestCandidate
candidate_of a h = record { method = a.method; url = a.url; headers = h.audit; has_body = false }

module _ {Url : Type 0} (lib : UrlLib Url) where
  -- The checks between the contract and the reservation.
  unfoldable pub prepare :
      World → AssessmentExecutor → RequestArgs → Result ExecuteError RequestHeaders
  prepare w x a = do
    h ← headers x a.identity a.extra_headers a.auth_override
    _ ← map_err policy (authorize lib x.policy x.scope (candidate_of a h))
    guard (not (remaining_response_bytes x.budget == 0)) run_response_bytes_exhausted
    wait_for_rate_slot w x
    ok h

  -- After `recheck_contract` has stored the scope.
  unfoldable pub prepare_and_send : World → AssessmentExecutor → RequestArgs → Reply
  prepare_and_send w x a = elim (prepare w x a) [
    | err e ↦ (x, err e)
    | ok h ↦ reserve_and_send w x a h
  ]

  -- `execute_internal` by the cancel flag that it reads first.
  unfoldable pub execute_unless : Bool → World → AssessmentExecutor → RequestArgs → Reply
  execute_unless true w x a = (x, err assessment_cancelled)
  execute_unless false w x a = elim (recheck_contract w x) [
    | err e ↦ (x, err e)
    | ok scope ↦ prepare_and_send w (record x { scope = scope }) a
  ]

  unfoldable pub execute_internal : World → AssessmentExecutor → RequestArgs → Reply
  unfolding execute_unless
  execute_internal w x a = execute_unless w.cancelled w x a

  abbrev pub max_auth_secret_bytes : ℕ
  max_auth_secret_bytes = 16 * 1024

  abbrev pub is_anonymous : IdentitySelection → Bool
  is_anonymous anonymous = true
  is_anonymous _ = false

  abbrev pub bad_probe : IdentitySelection → Text → Bool
  bad_probe identity value =
      is_anonymous identity
      || is_empty value
      || ltb max_auth_secret_bytes (byte_len value)
      || has_line_break value

  -- `execute_with_auth_probe`; the arguments carry the probe's value as the override.
  unfoldable pub execute_with_auth_probe : World → AssessmentExecutor → RequestArgs → Text → Reply
  execute_with_auth_probe w x a value =
      if bad_probe a.identity value
      then (x, err auth_probe_invalid)
      else execute_internal w x (record a { auth_override = some value })

  unfoldable pub execute : World → AssessmentExecutor → RequestArgs → Reply
  execute w x a = execute_internal w x (record a { auth_override = none })

  -- The check of a candidate without sending it.
  unfoldable pub authorize_candidate :
      AssessmentExecutor → (method url : Text) → List ReplayHeader → Result ExecuteError (Unit {0})
  authorize_candidate x method url headers = do
    _ ← map_err policy (
        authorize lib x.policy x.scope
          (record { method = method; url = url; headers = headers; has_body = false }))
    ok tt

-- `identity_available`
unfoldable pub identity_available : AssessmentExecutor → IdentitySelection → Bool
identity_available x anonymous = true
identity_available x identity_a = is_some x.identity_a
identity_available x identity_b = is_some x.identity_b
