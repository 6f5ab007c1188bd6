-- ===== src/Assessment/Budget.antt =====
-- src-tauri/src/assessment/policy.rs: the request budget of a run. The counters are `u32`, the
-- bytes a `u64`; `+=` on a `u32` wraps here, and the invariant shows that it never does.
pub mod Bounds
pub mod Runs
use rust_forge.Base.{
  ℕ, ◌+◌, ◌-◌, ◌*◌, ◌/◌, Bool, true, false, ◌&&◌, ◌||◌, List, [], ◌∷◌, min, Result, ok, err, ltb,
  leb, ◌==◌, if◌then◌else◌, add_u32, saturating_add, u64_max,
}
use rust_forge.Assessment.Policy.{
  PolicyRejection, invalid_request_budget, request_budget_exhausted, discovery_budget_exhausted,
  run_response_bytes_exhausted,
}

abbrev pub max_request_budget : ℕ
max_request_budget = 300

abbrev pub max_response_bytes : ℕ
max_response_bytes = 1024 * 1024

abbrev pub max_run_response_bytes : ℕ
max_run_response_bytes = 20 * 1024 * 1024

pub data RequestPhase : Type 0 where
  discovery : RequestPhase
  verification : RequestPhase

pub record RequestBudget : Type 0 where
  pub total : ℕ
  pub discovery_limit : ℕ
  pub used : ℕ
  pub discovery_used : ℕ
  pub bytes_used : ℕ

abbrev pub is_discovery : RequestPhase → Bool
is_discovery discovery = true
is_discovery verification = false

unfoldable pub new : ℕ → Result PolicyRejection RequestBudget
new total =
    if total == 0 || ltb max_request_budget total
    then err invalid_request_budget
    else ok (record {
      total = total;
      discovery_limit = min 40 (total / 3);
      used = 0;
      discovery_used = 0;
      bytes_used = 0;
    })

-- A method that fails leaves the budget as it is; the result is the count of requests so far.
unfoldable pub reserve_request :
    RequestPhase → RequestBudget → RequestBudget × Result PolicyRejection ℕ
reserve_request phase b =
    if leb b.total b.used
    then (b, err request_budget_exhausted)
    else if is_discovery phase && leb b.discovery_limit b.discovery_used
    then (b, err discovery_budget_exhausted)
    else let used = add_u32 b.used 1 in
      (
        record b {
          used = used;
          discovery_used =
              if is_discovery phase then add_u32 b.discovery_used 1 else b.discovery_used;
        },
        ok used,
      )

unfoldable pub record_response_bytes :
    ℕ → RequestBudget → RequestBudget × Result PolicyRejection (Unit {0})
record_response_bytes bytes b =
    let bytes_used = saturating_add u64_max b.bytes_used bytes in
    (
      record b { bytes_used = bytes_used },
      if ltb max_run_response_bytes bytes_used then err run_response_bytes_exhausted else ok tt,
    )

unfoldable pub remaining : RequestBudget → ℕ
remaining b = b.total - b.used

unfoldable pub remaining_response_bytes : RequestBudget → ℕ
remaining_response_bytes b = max_run_response_bytes - b.bytes_used
