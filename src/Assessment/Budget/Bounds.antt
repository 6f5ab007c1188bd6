-- ===== src/Assessment/Budget/Bounds.antt =====
-- The invariant of the budget.
use rust_forge.Base.{ℕ, ◌*◌, ◌≤◌, ◌<◌, ◌≡◌, ok, arith, u64_max}
use rust_forge.Assessment.Budget.{
  RequestPhase, discovery, verification, RequestBudget, new, reserve_request, record_response_bytes,
}

pub record IsWithin (b : RequestBudget) : Type 0 where
  pub total_small : b.total ≤ 300
  pub used_within : b.used ≤ b.total
  pub discovery_within : b.discovery_used ≤ b.discovery_limit
  pub discovery_counted : b.discovery_used ≤ b.used
  pub reserve_kept : b.discovery_limit * 3 ≤ b.total
  pub discovery_small : b.discovery_limit ≤ 40
  pub bytes_fit : b.bytes_used ≤ u64_max

pub new-IsWithin :
    (total : ℕ) (b : RequestBudget)
    → new total ≡ ok b
    → IsWithin b × (b.used ≡ 0) × (b.total ≡ total) × (0 < total)
unfolding new
new-IsWithin total b h = ground arith

pub reserve_request-IsWithin :
    (phase : RequestPhase) (b : RequestBudget) → IsWithin b → IsWithin (reserve_request phase b).0
unfolding reserve_request
reserve_request-IsWithin discovery b h = ground arith
reserve_request-IsWithin verification b h = ground arith

pub record_response_bytes-IsWithin :
    (bytes : ℕ) (b : RequestBudget) → IsWithin b → IsWithin (record_response_bytes bytes b).0
unfolding record_response_bytes
record_response_bytes-IsWithin bytes b h = ground arith
