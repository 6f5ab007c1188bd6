-- ===== src/Assessment/Budget/Runs.antt =====
-- The budget over any sequence of reservations.
use rust_forge.Base.{
  ℕ, zero, suc, min, ◌+◌, ◌/◌, ◌*◌, ◌≤◌, ◌<◌, ◌≡◌, ◌⊎◌, refl, List, [], ◌∷◌, Result, ok, err, arith,
}
use rust_forge.Assessment.Policy.{
  PolicyRejection, request_budget_exhausted, discovery_budget_exhausted,
}
use rust_forge.Assessment.Budget.{
  RequestPhase, discovery, verification, RequestBudget, new, reserve_request,
}
use rust_forge.Assessment.Budget.Bounds.{IsWithin, new-IsWithin, reserve_request-IsWithin}

-- What one reservation does: a grant counts the request, in both counters if it is for discovery,
-- and a refusal changes nothing.
abbrev pub Reserves :
    RequestPhase → RequestBudget → RequestBudget × Result PolicyRejection ℕ → Type 0
Reserves verification b r =
    ((b.used < b.total) × (r ≡ (record b { used = b.used + 1 }, ok (b.used + 1))))
    ⊎ ((b.used ≡ b.total) × (r ≡ (b, err request_budget_exhausted)))
Reserves discovery b r =
    ((b.used < b.total)
      × (b.discovery_used < b.discovery_limit)
      × (r ≡ (
        record b { used = b.used + 1; discovery_used = b.discovery_used + 1 },
        ok (b.used + 1),
      )))
    ⊎ ((b.used ≡ b.total) × (r ≡ (b, err request_budget_exhausted)))
    ⊎ ((b.used < b.total)
        × (b.discovery_used ≡ b.discovery_limit)
        × (r ≡ (b, err discovery_budget_exhausted)))

-- A reservation within the budget is granted exactly while requests are left, and for discovery
-- only while its share is not used up; a grant raises the counters by one without wrapping, and a
-- refusal leaves the budget as it was.
pub reserve_request-Reserves :
    (phase : RequestPhase) (b : RequestBudget)
    → IsWithin b
    → Reserves phase b (reserve_request phase b)
unfolding reserve_request
reserve_request-Reserves discovery b h = ground arith
reserve_request-Reserves verification b h = ground arith

-- The budget after the reservations of the list, refused ones included.
pub reserve_all : List RequestPhase → RequestBudget → RequestBudget
reserve_all [] b = b
reserve_all (phase ∷ phases) b = reserve_all phases (reserve_request phase b).0

pub count_ok : Result PolicyRejection ℕ → ℕ
count_ok (ok _) = 1
count_ok (err _) = 0

-- How many of them are granted.
pub grants : List RequestPhase → RequestBudget → ℕ
grants [] b = 0
grants (phase ∷ phases) b = let (b', r) = reserve_request phase b in count_ok r + grants phases b'

-- How many of the discovery requests among them are granted.
pub discovery_grants : List RequestPhase → RequestBudget → ℕ
discovery_grants [] b = 0
discovery_grants (discovery ∷ phases) b =
    let (b', r) = reserve_request discovery b in count_ok r + discovery_grants phases b'
discovery_grants (verification ∷ phases) b =
    discovery_grants phases (reserve_request verification b).0

reserve_request-used :
    (phase : RequestPhase) (b : RequestBudget)
    → IsWithin b
    → ((reserve_request phase b).0.used ≡ b.used + count_ok (reserve_request phase b).1)
      × ((reserve_request phase b).0.total ≡ b.total)
      × ((reserve_request phase b).0.discovery_limit ≡ b.discovery_limit)
unfolding reserve_request count_ok
reserve_request-used discovery b h = ground arith
reserve_request-used verification b h = ground arith

reserve_all-used :
    (phases : List RequestPhase) (b : RequestBudget)
    → IsWithin b
    → IsWithin (reserve_all phases b)
      × ((reserve_all phases b).used ≡ b.used + grants phases b)
      × ((reserve_all phases b).total ≡ b.total)
unfolding reserve_all grants
reserve_all-used [] b h = (h, omega arith, refl)
reserve_all-used (phase ∷ phases) b h =
    let b' = (reserve_request phase b).0 in
    let (valid, used, total) = reserve_all-used phases b' (reserve_request-IsWithin phase b h) in
    let step = reserve_request-used phase b h in (valid, omega arith, omega arith)

discovery-counted :
    (b : RequestBudget)
    → IsWithin b
    → let (b', r) = reserve_request discovery b in b'.discovery_used ≡ b.discovery_used + count_ok r
unfolding reserve_request count_ok
discovery-counted b h = ground arith

verification-counted :
    (b : RequestBudget) → (reserve_request verification b).0.discovery_used ≡ b.discovery_used
unfolding reserve_request
verification-counted b = ground arith

reserve_all-discovery :
    (phases : List RequestPhase) (b : RequestBudget)
    → IsWithin b
    → (reserve_all phases b).discovery_used ≡ b.discovery_used + discovery_grants phases b
unfolding reserve_all discovery_grants
reserve_all-discovery [] b h = omega arith
reserve_all-discovery (discovery ∷ phases) b h =
    let rest = reserve_all-discovery phases _ (reserve_request-IsWithin discovery b h) in
    omega (arith, rest, discovery-counted b h)
reserve_all-discovery (verification ∷ phases) b h =
    let rest = reserve_all-discovery phases _ (reserve_request-IsWithin verification b h) in
    omega (arith, rest, verification-counted b)

new-discovery : (total : ℕ) (b : RequestBudget) → new total ≡ ok b → b.discovery_used ≡ 0
unfolding new
new-discovery total b h = ground arith

-- From a new budget, whatever the order of the phases: the counters are the numbers of
-- requests and of discovery requests that were granted, the former never pass the total, and the latter
-- never a third of it.
pub grants_bounded :
    (total : ℕ) (b : RequestBudget) (phases : List RequestPhase)
    → new total ≡ ok b
    → ((reserve_all phases b).used ≡ grants phases b)
      × (grants phases b ≤ total)
      × ((reserve_all phases b).discovery_used ≡ discovery_grants phases b)
      × (discovery_grants phases b * 3 ≤ total)
      × (total ≤ 300)
grants_bounded total b phases h =
    let (valid, zero_used, same, _) = new-IsWithin total b h in
    let (valid', used, total') = reserve_all-used phases b valid in
    let found = reserve_all-discovery phases b valid in
    let none_found = new-discovery total b h in
    (
      omega arith,
      omega (arith, valid'),
      omega arith,
      omega (arith, valid', found, none_found),
      omega (arith, valid),
    )

new_limit :
    (total : ℕ) (b : RequestBudget) → new total ≡ ok b → b.discovery_limit ≡ min 40 (total / 3)
unfolding new
new_limit total b h = ground arith

-- So many reservations for one phase.
pub reserve_many : ℕ → RequestPhase → RequestBudget → RequestBudget
reserve_many zero phase b = b
reserve_many (suc n) phase b = reserve_many n phase (reserve_request phase b).0

verifications :
    (n : ℕ) (b : RequestBudget)
    → IsWithin b
    → (reserve_many n verification b).used ≡ min b.total (b.used + n)
unfolding reserve_many
verifications zero b h = omega (arith, h)
verifications (suc n) b h =
    let valid = reserve_request-IsWithin verification b h in
    let ih = verifications n (reserve_request verification b).0 valid in
    ground (arith, reserve_request-Reserves verification b h, ih)

discovery_step :
    (b : RequestBudget)
    → IsWithin b
    → b.used ≡ b.discovery_used
    → let b' = (reserve_request discovery b).0 in
      (b'.used ≡ b'.discovery_used)
      × (b'.used ≡ min b.discovery_limit (b.used + 1))
      × (b'.discovery_limit ≡ b.discovery_limit)
      × (b'.total ≡ b.total)
unfolding reserve_request
discovery_step b h e = ground arith

discoveries :
    (n : ℕ) (b : RequestBudget)
    → IsWithin b
    → b.used ≡ b.discovery_used
    → IsWithin (reserve_many n discovery b)
      × ((reserve_many n discovery b).used ≡ min b.discovery_limit (b.used + n))
      × ((reserve_many n discovery b).total ≡ b.total)
unfolding reserve_many
discoveries zero b h e = (h, omega (arith, h), refl)
discoveries (suc n) b h e =
    let b' = (reserve_request discovery b).0 in
    let (same, used, limit, total) = discovery_step b h e in
    let (valid, used', total') = discoveries n b' (reserve_request-IsWithin discovery b h) same in
    (valid, omega arith, omega arith)

-- Discovery first, then verification, as a run does it: of `n` discovery requests and `m`
-- verification requests the first `min 40 (total / 3)` and then the first of what is left of the
-- total are granted, no fewer.
pub discovery_then_verification :
    (total : ℕ) (b : RequestBudget) (n m : ℕ)
    → new total ≡ ok b
    → let found = reserve_many n discovery b in
      (found.used ≡ min (min 40 (total / 3)) n)
      × ((reserve_many m verification found).used ≡ min total (found.used + m))
discovery_then_verification total b n m h =
    let (valid, fresh, same, _) = new-IsWithin total b h in
    let limit = new_limit total b h in
    let (valid', used, total') = discoveries n b valid (omega (arith, valid)) in
    (omega arith, omega (arith, verifications m (reserve_many n discovery b) valid'))
