-- ===== src/Assessment/Executor/Stops.antt =====
-- When a run stops because of what the target answers.
use rust_forge.Base.{
  ℕ, ◌+◌, ◌<◌, ◌≡◌, ◌≢◌, refl, ap, sym, ◌∙◌, inl, inr, Bool-cases, Bool, true, false, List, [], ◌∷◌,
  Option, none, some, min, arith, leb, ◌==◌, if◌then◌else◌, is_some_and,
}
use rust_forge.Assessment.Budget.{remaining_response_bytes}
use rust_forge.Assessment.Executor.{
  ReplayRun, AssessmentExecutor, StopCondition, rate_limited, target_unstable, is_unstable,
  observe_stop_condition, stop_of,
}

abbrev pub IsRateLimited : ReplayRun → Type 0
IsRateLimited run = run.status ≡ some 429

-- The observations of a run of responses, the last stop condition with them.
pub observe_all : AssessmentExecutor → List ReplayRun → AssessmentExecutor × Option StopCondition
observe_all x [] = (x, none)
observe_all x (run ∷ []) = observe_stop_condition x run
observe_all x (run ∷ run' ∷ runs) = observe_all (observe_stop_condition x run).0 (run' ∷ runs)

status_429 :
    (run : ReplayRun) → run.status ≢ some 429 → is_some_and (λ s. s == 429) run.status ≡ false
status_429 run h = ground arith

-- A response with status 429 stops the run at once and is not counted as a failure.
observe_429 :
    (x : AssessmentExecutor) (run : ReplayRun)
    → IsRateLimited run
    → observe_stop_condition x run ≡ (x, some rate_limited)
unfolding observe_stop_condition
observe_429 x run h = rw h

observe_other :
    (x : AssessmentExecutor) (run : ReplayRun) (unstable : Bool)
    → run.status ≢ some 429
    → is_unstable run ≡ unstable
    → let failures = if unstable then min 255 (x.consecutive_target_failures + 1) else 0 in
      observe_stop_condition x run ≡ (
        record x { consecutive_target_failures = failures },
        stop_of failures (remaining_response_bytes x.budget),
      )
unfolding observe_stop_condition
observe_other x run unstable h u = rw (status_429 run h) (rw u refl)

stop_of_left :
    (failures left : ℕ)
    → 0 < left
    → stop_of failures left ≡ (if leb 3 failures then some target_unstable else none)
stop_of_left failures left h = ground arith

-- While bytes are left, only a third failure in a row stops the run.
observe_at :
    (x : AssessmentExecutor) (n : ℕ) (run : ReplayRun) (unstable : Bool)
    → 0 < remaining_response_bytes x.budget
    → run.status ≢ some 429
    → is_unstable run ≡ unstable
    → let failures = if unstable then min 255 (n + 1) else 0 in
      observe_stop_condition (record x { consecutive_target_failures = n }) run ≡ (
        record x { consecutive_target_failures = failures },
        (if leb 3 failures then some target_unstable else none),
      )
observe_at x n run unstable left h u =
    let failures = if unstable then min 255 (n + 1) else 0 in
    observe_other (record x { consecutive_target_failures = n }) run unstable h u
    ∙ ap (λ c. (record x { consecutive_target_failures = failures }, c))
        (stop_of_left failures (remaining_response_bytes x.budget) left)

-- From a target that last answered well: 5xx answers and timeouts stop the run as unstable at the
-- third one in a row and not before, and another answer in the third place starts the count anew.
-- The answers have no status 429 and bytes of the response budget are left.
pub unstable_after_three :
    (x : AssessmentExecutor) (r1 r2 r3 : ReplayRun)
    → x.consecutive_target_failures ≡ 0
    → 0 < remaining_response_bytes x.budget
    → (is_unstable r1 ≡ true) × (r1.status ≢ some 429)
    → (is_unstable r2 ≡ true) × (r2.status ≢ some 429)
    → r3.status ≢ some 429
    → ((observe_all x (r1 ∷ [])).1 ≡ none)
      × ((observe_all x (r1 ∷ r2 ∷ [])).1 ≡ none)
      × (observe_all x (r1 ∷ r2 ∷ r3 ∷ []) ≡ (
          if is_unstable r3
          then (record x { consecutive_target_failures = 3 }, some target_unstable)
          else (x, none)))
unfolding observe_all
unstable_after_three x r1 r2 r3 z left (u1, n1) (u2, n2) n3 =
    let at : ℕ → AssessmentExecutor = λ n. record x { consecutive_target_failures = n } in
    let start : x ≡ at 0 = ap (λ n. at n) z in
    let first : observe_stop_condition x r1 ≡ (at 1, none) =
      ap (λ y. observe_stop_condition y r1) start ∙ observe_at x 0 r1 true left n1 u1 in
    let second : observe_stop_condition (observe_stop_condition x r1).0 r2 ≡ (at 2, none) =
      ap (λ y. observe_stop_condition y.0 r2) first ∙ observe_at x 1 r2 true left n2 u2 in
    (
      ap (λ y. y.1) first,
      ap (λ y. y.1) second,
      ap (λ y. observe_stop_condition y.0 r3) second ∙ elim (Bool-cases (is_unstable r3)) [
        | inl u3 ↦ observe_at x 2 r3 true left n3 u3 ∙ rw u3 refl
        | inr u3 ↦ observe_at x 2 r3 false left n3 u3 ∙ rw u3 (ap (λ y. (y, none)) (sym start))
      ],
    )
