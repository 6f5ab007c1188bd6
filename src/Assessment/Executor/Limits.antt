-- ===== src/Assessment/Executor/Limits.antt =====
-- The budget across `execute_internal`.
use rust_forge.Base.{
  ℕ, pos_part, ◌+◌, ◌*◌, ◌≤◌, ◌≡◌, refl, ◌∙◌, ◌⊎◌, inl, inr, Bool, true, false, Option, some,
  Result, ok, err, arith, Result-cases,
}
use rust_forge.Authorization.Url.{UrlLib}
use rust_forge.Assessment.Policy.{PolicyRejection}
use rust_forge.Assessment.Budget.{
  RequestPhase, discovery, verification, RequestBudget, reserve_request, record_response_bytes,
  remaining_response_bytes,
}
use rust_forge.Assessment.Budget.Bounds.{IsWithin, reserve_request-IsWithin}
use rust_forge.Assessment.Executor.{
  ExecuteError, policy, ReplayRun, AssessmentReplayRequest, AssessmentExecutor, World,
  StopCondition, RequestHeaders, RequestArgs, Reply, observe_stop_condition, after_response,
  request_of, reserve_and_send, prepare, prepare_and_send, recheck_contract, execute_unless,
  execute_internal,
}

-- The transport reads no more of a response than it is asked for.
abbrev pub IsBounded : (AssessmentReplayRequest → Result ExecuteError ReplayRun) → Type 0
IsBounded send =
    (r : AssessmentReplayRequest) (run : ReplayRun)
    → send r ≡ ok run
    → pos_part run.resp_wire_size ≤ r.max_response_bytes

-- The budget's invariant, and the bytes of all responses within the limit of a run.
abbrev pub IsWithinRun : RequestBudget → Type 0
IsWithinRun b = IsWithin b × (b.bytes_used ≤ 20 * 1024 * 1024)

record_fits :
    (bytes : ℕ) (b : RequestBudget)
    → IsWithinRun b
    → bytes ≤ remaining_response_bytes b
    → IsWithinRun (record_response_bytes bytes b).0
      × ((record_response_bytes bytes b).1 ≡ ok tt)
      × ((record_response_bytes bytes b).0.used ≡ b.used)
unfolding record_response_bytes remaining_response_bytes
record_fits bytes b (h, k) le = ground (arith, h)

observe-budget :
    (x : AssessmentExecutor) (run : ReplayRun) → (observe_stop_condition x run).0.budget ≡ x.budget
unfolding observe_stop_condition
observe-budget x run = ground arith

reserve_keeps :
    (phase : RequestPhase) (b : RequestBudget)
    → IsWithinRun b
    → IsWithinRun (reserve_request phase b).0
      × (b.used ≤ (reserve_request phase b).0.used)
      × ((reserve_request phase b).0.used ≤ b.used + 1)
      × ((n : ℕ)
          → (reserve_request phase b).1 ≡ ok n
          → (reserve_request phase b).0.used ≡ b.used + 1)
unfolding reserve_request
reserve_keeps discovery b h = (
  (reserve_request-IsWithin discovery b h.0, ground arith),
  ground arith,
  ground arith,
  λ n e. ground arith,
)
reserve_keeps verification b h = (
  (reserve_request-IsWithin verification b h.0, ground arith),
  ground arith,
  ground arith,
  λ n e. ground arith,
)

module _ (w : World) where
  after_response-budget :
      (x : AssessmentExecutor) (run : ReplayRun)
      → (after_response w x run).0.budget
        ≡ (record_response_bytes (pos_part run.resp_wire_size) x.budget).0
  unfolding after_response
  after_response-budget x run =
      let budget = (record_response_bytes (pos_part run.resp_wire_size) x.budget).0 in
      ground (arith, observe-budget (record x { budget = budget }) run)

  abbrev KeepsBelow : AssessmentExecutor → Reply → Type 0
  KeepsBelow x r =
      IsWithinRun r.0.budget
      × (x.budget.used ≤ r.0.budget.used)
      × (r.0.budget.used ≤ x.budget.used + 1)
      × ((run : ReplayRun) (stop : Option StopCondition)
          → r.1 ≡ ok (run, stop)
          → r.0.budget.used ≡ x.budget.used + 1)

  -- A response counts as one request, an error as at most one.
  abbrev pub Counts : Result ExecuteError (ReplayRun × Option StopCondition) → ℕ → ℕ → Type 0
  Counts (ok _) before after = after ≡ before + 1
  Counts (err _) before after = (before ≤ after) × (after ≤ before + 1)

  -- What a call does to the budget: it stays within the run, and the request is counted.
  abbrev pub KeepsWithin : AssessmentExecutor → Reply → Type 0
  KeepsWithin x r = IsWithinRun r.0.budget × Counts r.1 x.budget.used r.0.budget.used

  KeepsBelow-KeepsWithin : (x : AssessmentExecutor) (r : Reply) → KeepsBelow x r → KeepsWithin x r
  KeepsBelow-KeepsWithin x (y, ok (run, stop)) h = (h.0, h.3 run stop refl)
  KeepsBelow-KeepsWithin x (y, err e) h = (h.0, (h.1, h.2))

  abbrev reserved : AssessmentExecutor → RequestArgs → RequestBudget × Result PolicyRejection ℕ
  reserved x a = reserve_request a.phase x.budget

  -- After a grant.
  abbrev pub granted : AssessmentExecutor → RequestArgs → AssessmentExecutor
  granted x a = record x { budget = (reserved x a).0; last_request_started = some w.now }

  -- What the reservation leads to.
  abbrev SendCases : AssessmentExecutor → RequestArgs → RequestHeaders → Type 0
  SendCases x a h =
      let r = reserve_and_send w x a h in
      ((e : PolicyRejection) × ((reserved x a).1 ≡ err e)
        × (r ≡ (record x { budget = (reserved x a).0 }, err (policy e))))
      ⊎ ((n : ℕ) × ((reserved x a).1 ≡ ok n)
          × (((e : ExecuteError) × (r ≡ (granted x a, err e)))
              ⊎ ((run : ReplayRun) × (w.send (request_of (granted x a) a h) ≡ ok run)
                  × (r ≡ after_response w (granted x a) run))))

  send_cases : (x : AssessmentExecutor) (a : RequestArgs) (h : RequestHeaders) → SendCases x a h
  unfolding reserve_and_send
  send_cases x a h = elim (Result-cases (reserved x a).1) [
    | inr (e, refused) ↦ inl (e, refused, rw (refused, reserve_and_send))
    | inl (n, kept) ↦ inr (
      n,
      kept,
      elim (Result-cases (w.send (request_of (granted x a) a h))) [
        | inr (e, broken) ↦ inl (e, rw (kept, reserve_and_send) (rw (broken, reserve_and_send)))
        | inl (run, came) ↦
            inr (run, came, rw (kept, reserve_and_send) (rw (came, reserve_and_send)))
      ],
    )
  ]

  reserve_and_send-KeepsBelow :
      (x : AssessmentExecutor) (a : RequestArgs) (h : RequestHeaders)
      → IsBounded w.send
      → IsWithinRun x.budget
      → KeepsBelow x (reserve_and_send w x a h)
  reserve_and_send-KeepsBelow x a h bounded within =
      let cases : SendCases x a h = send_cases x a h in
      let kept = reserve_keeps a.phase x.budget within in
      elim cases [
        | inl (e, refused, r) ↦ rw r (kept.0, kept.1, kept.2, λ run stop k. cc)
        | inr (n, ok_n, inl (e, r)) ↦ rw r (kept.0, kept.1, kept.2, λ run stop k. cc)
        | inr (n, ok_n, inr (run, came, r)) ↦
            let small : pos_part run.resp_wire_size ≤ remaining_response_bytes (reserved x a).0 =
              omega (arith, bounded (request_of (granted x a) a h) run came) in
            let (fits, _, same) =
              record_fits (pos_part run.resp_wire_size) (reserved x a).0 kept.0 small in
            rw r (
              rw (after_response-budget (granted x a) run) (
                fits,
                omega (arith, same, kept.1),
                omega (arith, same, kept.2),
                λ run' stop k. same ∙ kept.3 n ok_n,
              ))
      ]

  module _ {Url : Type 0} (lib : UrlLib Url) where
    prepare_and_send-KeepsBelow :
        (x : AssessmentExecutor) (a : RequestArgs)
        → IsBounded w.send
        → IsWithinRun x.budget
        → KeepsBelow x (prepare_and_send lib w x a)
    unfolding prepare_and_send
    prepare_and_send-KeepsBelow x a bounded within = elim (Result-cases (prepare lib w x a)) [
      | inl (h, ready) ↦
          rw (ready, prepare_and_send) (reserve_and_send-KeepsBelow x a h bounded within)
      | inr (e, refused) ↦
          rw (refused, prepare_and_send) (within, omega arith, omega arith, λ run stop k. cc)
    ]

    execute_unless-KeepsBelow :
        (cancelled : Bool) (x : AssessmentExecutor) (a : RequestArgs)
        → IsBounded w.send
        → IsWithinRun x.budget
        → KeepsBelow x (execute_unless lib cancelled w x a)
    unfolding execute_unless
    execute_unless-KeepsBelow true x a bounded within =
        (within, omega arith, omega arith, λ run stop k. cc)
    execute_unless-KeepsBelow false x a bounded within =
        elim (Result-cases (recheck_contract w x)) [
          | inl (scope, current) ↦
              rw (current, execute_unless)
                (prepare_and_send-KeepsBelow (record x { scope = scope }) a bounded within)
          | inr (e, drift) ↦
              rw (drift, execute_unless) (within, omega arith, omega arith, λ run stop k. cc)
        ]

    -- If the transport reads no more of a response than it is asked for, a call of the executor with a
    -- budget within its limits, the 20 MiB of all responses of a run included, keeps it so, whatever
    -- the world answers; it counts one request where a response comes back and at most one where not.
    pub execute_internal-KeepsWithin :
        (x : AssessmentExecutor) (a : RequestArgs)
        → IsBounded w.send
        → IsWithinRun x.budget
        → KeepsWithin x (execute_internal lib w x a)
    unfolding execute_internal
    execute_internal-KeepsWithin x a bounded within =
        KeepsBelow-KeepsWithin x (execute_unless lib w.cancelled w x a)
          (execute_unless-KeepsBelow w.cancelled x a bounded within)
