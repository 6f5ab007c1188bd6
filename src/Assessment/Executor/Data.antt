-- ===== src/Assessment/Executor/Data.antt =====
-- src-tauri/src/assessment/executor.rs: the data of the executor, and the identity that
-- src-tauri/src/assessment/service.rs hands to it.
use rust_forge.Base.{ℕ, ℤ, Bool, List, ◌++◌, Option, Result}
use rust_forge.Text.{Text, codes, decimal}
use rust_forge.Authorization.{AuthorizationError}
use rust_forge.Authorization.Scope.{ScopePolicy}
use rust_forge.Assessment.Policy.{PolicyRejection, ReplayHeader, AssessmentPolicy}
use rust_forge.Assessment.Budget.{RequestPhase, RequestBudget}

pub data IdentitySelection : Type 0 where
  anonymous : IdentitySelection
  identity_a : IdentitySelection
  identity_b : IdentitySelection

pub data StopCondition : Type 0 where
  rate_limited : StopCondition
  target_unstable : StopCondition
  response_budget_exhausted : StopCondition

pub data ExecuteError : Type 0 where
  assessment_cancelled : ExecuteError
  contract_drift : ExecuteError
  identity_missing : ExecuteError
  auth_probe_invalid : ExecuteError
  policy : PolicyRejection → ExecuteError
  run_response_bytes_exhausted : ExecuteError
  -- the transport's or the database's own error
  failed : ExecuteError

-- `RuntimeIdentity` of service.rs
pub record RuntimeIdentity : Type 0 where
  pub profile_id : ℕ
  pub label : Text
  pub header_name : Text
  pub revision : ℕ
  pub secret : Text

unfoldable pub live_header : RuntimeIdentity → ReplayHeader
live_header i = record { name = i.header_name; value = i.secret }

unfoldable pub audit_header : RuntimeIdentity → ReplayHeader
audit_header i = record {
  name = i.header_name;
  value = codes "[AUTH_PROFILE:" ++ decimal i.profile_id ++ codes "]";
}

unfoldable pub request_hash_context : RuntimeIdentity → Text
request_hash_context i =
    codes "profile:" ++ decimal i.profile_id ++ codes ":revision:" ++ decimal i.revision

-- The part of `ReplayRun` that the executor reads.
pub record ReplayRun : Type 0 where
  pub status : Option ℕ
  pub error_code : Option Text
  pub resp_wire_size : ℤ

pub record AssessmentReplayRequest : Type 0 where
  pub method : Text
  pub url : Text
  pub live_headers : List ReplayHeader
  pub audit_headers : List ReplayHeader
  pub request_hash_context : Text
  pub max_response_bytes : ℕ

-- The contract fields that are checked again before each request.
pub record AssessmentContractPreview : Type 0 where
  pub template_registry_hash : Text
  pub normalized_scope : List Text

-- The fields that a request reads or changes; the pool, the ids of the project, the run and the
-- session, and the receiver of the cancel flag are of the `World`.
pub record AssessmentExecutor : Type 0 where
  pub preview : AssessmentContractPreview
  pub scope : ScopePolicy
  pub policy : AssessmentPolicy
  pub identity_a : Option RuntimeIdentity
  pub identity_b : Option RuntimeIdentity
  pub budget : RequestBudget
  pub request_interval : ℕ
  pub last_request_started : Option ℕ
  pub consecutive_target_failures : ℕ

pub record World : Type 0 where
  -- `*self.cancel.borrow()` at the start and before the wait
  pub cancelled : Bool
  pub cancelled_before_wait : Bool
  -- `cancel.changed()` comes before the end of the sleep
  pub cancelled_in_wait : Bool
  -- `catalog::registry_hash()`
  pub registry_hash : Text
  -- a connection from the pool
  pub is_connected : Bool
  -- `load_project_policy`
  pub current_scope : Result AuthorizationError ScopePolicy
  -- `ensure_assessment_ai_contract_current` succeeds
  pub is_ai_current : Bool
  -- the secret's revision in the row of a profile, or the error of the query
  pub current_revision : ℕ → Result ExecuteError (Option ℕ)
  -- `last.elapsed()` and `Instant::now()`
  pub elapsed : ℕ
  pub now : ℕ
  -- `execute_assessment_request`
  pub send : AssessmentReplayRequest → Result ExecuteError ReplayRun
  -- `persist_counters_and_event` succeeds
  pub is_persisted : Bool

pub record RequestHeaders : Type 0 where
  pub live : List ReplayHeader
  pub audit : List ReplayHeader
  pub context : Text

pub record RequestArgs : Type 0 where
  pub phase : RequestPhase
  pub method : Text
  pub url : Text
  pub extra_headers : List ReplayHeader
  pub identity : IdentitySelection
  pub auth_override : Option Text
  pub hash_suffix : Text
