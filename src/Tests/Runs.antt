-- ===== src/Tests/Runs.antt =====
-- Runs of an assessment: the budget, the slot and the executor.
use rust_forge.Base.{
  ℕ, ◌+◌, ◌*◌, ◌/◌, ◌≤◌, ◌<◌, ◌≡◌, ◌≢◌, refl, ◌⊎◌, true, false, List, [], ◌∷◌, Option, none, some,
  min, ok, err, arith, if◌then◌else◌,
}
use rust_forge.Text.{codes}
use rust_forge.Assessment.Budget.{
  RequestPhase, discovery, verification, RequestBudget, new, reserve_request,
  remaining_response_bytes,
}
use rust_forge.Assessment.Budget.Bounds.{IsWithin}
use rust_forge.Assessment.Budget.Runs.{
  Reserves, reserve_request-Reserves, reserve_all, grants, discovery_grants, grants_bounded,
  reserve_many, discovery_then_verification,
}
use rust_forge.Assessment.Manager.{
  AssessmentManager, assessment_busy, empty, claim, release, active_run_for_project,
}
use rust_forge.Assessment.Manager.Admission.{
  Call, claims, cancels, releases, serve_all, Holds, claim_excludes,
}
use rust_forge.Assessment.Executor.{
  target_unstable, execute_internal, is_unstable, identity_a, headers,
}
use rust_forge.Assessment.Executor.Limits.{IsBounded, KeepsWithin, execute_internal-KeepsWithin}
use rust_forge.Assessment.Executor.Unsent.{NotSent, Sends, execute_internal-Sends_safely}
use rust_forge.Assessment.Executor.Stops.{observe_all, unstable_after_three}
use rust_forge.Assessment.Executor.Secrets.{audited, with_secrets, headers-audited}
use rust_forge.Tests.{simple_lib, budget, executor, answer, world, args}

budget-IsWithin : IsWithin budget
budget-IsWithin = record {
  total_small = omega arith;
  used_within = omega arith;
  discovery_within = omega arith;
  discovery_counted = omega arith;
  reserve_kept = omega arith;
  discovery_small = omega arith;
  bytes_fit = omega arith;
}

reserve_request-Reserves_example : Reserves discovery budget (reserve_request discovery budget)
reserve_request-Reserves_example = reserve_request-Reserves discovery budget budget-IsWithin

abbrev fresh : RequestBudget
fresh = record { total = 6; discovery_limit = 2; used = 0; discovery_used = 0; bytes_used = 0 }

fresh-new : new 6 ≡ ok fresh
unfolding new
fresh-new = refl

abbrev phases : List RequestPhase
phases = discovery ∷ verification ∷ discovery ∷ discovery ∷ []

grants_bounded_example :
    ((reserve_all phases fresh).used ≡ grants phases fresh)
    × (grants phases fresh ≤ 6)
    × ((reserve_all phases fresh).discovery_used ≡ discovery_grants phases fresh)
    × (discovery_grants phases fresh * 3 ≤ 6)
    × (6 ≤ 300)
grants_bounded_example = grants_bounded 6 fresh phases fresh-new

discovery_then_verification_example :
    ((reserve_many 3 discovery fresh).used ≡ min (min 40 (6 / 3)) 3)
    × ((reserve_many 9 verification (reserve_many 3 discovery fresh)).used
        ≡ min 6 ((reserve_many 3 discovery fresh).used + 9))
discovery_then_verification_example = discovery_then_verification 6 fresh 3 9 fresh-new

abbrev calls : List Call
calls = claims 2 11 ∷ cancels true 1 10 ∷ releases 11 ∷ []

abbrev later : AssessmentManager
later = serve_all (claim 1 10 empty).0 calls

claim_excludes_example :
    (claim 2 12 later ≡ (later, err (assessment_busy 10)))
    × (active_run_for_project 1 later ≡ some 10)
    × Holds 2 12 (claim 2 12 (release 10 later)).0
claim_excludes_example = claim_excludes 1 10 2 12 empty calls refl (refl, (refl, (refl, tt)))

abbrev project : ℕ
project = 1

abbrev run : ℕ
run = 10

abbrev held : AssessmentManager
held = record { active = some (record { project_id = project; run_id = run; cancel = false }) }

execute_internal-Sends_safely_example :
    NotSent simple_lib (λ w. execute_internal simple_lib w executor args) world
    ⊎ Sends simple_lib (λ w. execute_internal simple_lib w executor args) world executor
execute_internal-Sends_safely_example = execute_internal-Sends_safely simple_lib world executor args

world-IsBounded : IsBounded world.send
world-IsBounded r run e = ground arith

execute_internal-KeepsWithin_example :
    KeepsWithin world executor (execute_internal simple_lib world executor args)
execute_internal-KeepsWithin_example =
    execute_internal-KeepsWithin world simple_lib executor args world-IsBounded
      (budget-IsWithin, omega arith)

left : 0 < remaining_response_bytes executor.budget
unfolding remaining_response_bytes
left = omega arith

other : ◌≢◌ {A = Option ℕ} (some 503) (some 429)
other e = ground arith

unstable_after_three_example :
    let x = executor in
    let bad = answer 503 10 in
    ((observe_all x (bad ∷ [])).1 ≡ none)
    × ((observe_all x (bad ∷ bad ∷ [])).1 ≡ none)
    × (observe_all x (bad ∷ bad ∷ bad ∷ []) ≡ (
        if is_unstable bad
        then (record x { consecutive_target_failures = 3 }, some target_unstable)
        else (x, none)))
unstable_after_three_example =
    unstable_after_three executor (answer 503 10) (answer 503 10) (answer 503 10) refl left
      (refl, other) (refl, other) other

headers-audited_example :
    audited
      (headers (with_secrets (codes "k") (codes "l") executor) identity_a [] (some (codes "p")))
    ≡ audited (headers executor identity_a [] none)
headers-audited_example =
    headers-audited executor identity_a [] (codes "k") (codes "l") (some (codes "p")) none
