-- ===== src/Assessment/Executor/Unsent.antt =====
-- When a request leaves the process.
use rust_forge.Base.{
  ◌≡◌, refl, ◌∙◌, ◌⊎◌, inl, inr, Bool, true, false, Result, ok, err, Result-cases, Ensures, ◌++◌,
  List, [], ◌∷◌, Option, none, some, Ensures-err, Ensures-ok, Ensures-bind, Ensures-guard,
  map_err-eq-ok,
}
use rust_forge.Authorization.Url.{UrlLib}
use rust_forge.Authorization.Scope.{ScopePolicy}
use rust_forge.Text.{Text}
use rust_forge.Assessment.Policy.{
  AuthorizedAssessmentRequest, AssessmentRequestCandidate, ReplayHeader,
}
use rust_forge.Assessment.Budget.{reserve_request}
use rust_forge.Assessment.Policy.Sound.{IsSafe, authorize-IsSafe}
use rust_forge.Assessment.Executor.{
  ExecuteError, identity_missing, IdentitySelection, anonymous, identity_a, identity_b,
  RuntimeIdentity, live_header, audit_header, overridden, with_identity, identity_headers, headers,
  request_of, after_response, ReplayRun, AssessmentReplayRequest, AssessmentExecutor, World,
  RequestHeaders, RequestArgs, Reply, reserve_and_send, prepare, prepare_and_send, recheck_contract,
  execute_unless, execute_internal, wait_for_rate_slot, check_revision,
}

-- What stands in the place of the audit headers is sent: the same headers, but for the value of the
-- last one, which is the secret of the identity or of the probe.
pub data SentAs : List ReplayHeader → List ReplayHeader → Type 0 where
  as_audited : (headers : List ReplayHeader) → SentAs headers headers
  with_secret :
      (extra : List ReplayHeader) (name placeholder secret : Text)
      → SentAs
          (extra ++ record { name = name; value = placeholder } ∷ [])
          (extra ++ record { name = name; value = secret } ∷ [])

-- The candidate that a request amounts to.
abbrev pub candidate_sent : AssessmentReplayRequest → AssessmentRequestCandidate
candidate_sent request = record {
  method = request.method;
  url = request.url;
  headers = request.audit_headers;
  has_body = false;
}

overridden-name :
    (i : RuntimeIdentity) (auth_override : Option Text)
    → (secret : Text) × (overridden auth_override (live_header i)
        ≡ record { name = i.header_name; value = secret })
unfolding live_header
overridden-name i none = (i.secret, refl)
overridden-name i (some value) = (value, refl)

identity-SentAs :
    (i : RuntimeIdentity) (extra : List ReplayHeader) (auth_override : Option Text)
    → SentAs (with_identity i extra auth_override).audit (with_identity i extra auth_override).live
unfolding audit_header
identity-SentAs i extra auth_override =
    let (secret, e) = overridden-name i auth_override in
    rw e (with_secret extra i.header_name _ secret)

identity_headers-SentAs :
    (i : Option RuntimeIdentity) (extra : List ReplayHeader) (auth_override : Option Text)
    → Ensures
        (λ (h : RequestHeaders). SentAs h.audit h.live)
        (identity_headers i extra auth_override)
identity_headers-SentAs none extra auth_override = Ensures-err identity_missing
identity_headers-SentAs (some i) extra auth_override =
    Ensures-ok _ (identity-SentAs i extra auth_override)

headers-SentAs :
    (x : AssessmentExecutor) (identity : IdentitySelection) (extra : List ReplayHeader)
    (auth_override : Option Text)
    → Ensures
        (λ (h : RequestHeaders). SentAs h.audit h.live)
        (headers x identity extra auth_override)
unfolding headers
headers-SentAs x anonymous extra auth_override = Ensures-ok _ (as_audited extra)
headers-SentAs x identity_a extra auth_override =
    identity_headers-SentAs x.identity_a extra auth_override
headers-SentAs x identity_b extra auth_override =
    identity_headers-SentAs x.identity_b extra auth_override

module _ {Url : Type 0} (lib : UrlLib Url) where
  -- The policy lets the request through, with the scope that the contract was checked against, and
  -- what is sent agrees with the headers that the policy saw.
  abbrev pub IsAllowed : AssessmentExecutor → AssessmentReplayRequest → Type 0
  IsAllowed x request =
      ((authorized : AuthorizedAssessmentRequest Url) × IsSafe lib x.policy x.scope
          (candidate_sent request) authorized)
      × SentAs request.audit_headers request.live_headers

  prepare-IsAllowed :
      (w : World) (x : AssessmentExecutor) (a : RequestArgs)
      → Ensures
          (λ h.
            ((authorized : AuthorizedAssessmentRequest Url) × IsSafe lib x.policy x.scope
                (record { method = a.method; url = a.url; headers = h.audit; has_body = false })
                authorized)
            × SentAs h.audit h.live)
          (prepare lib w x a)
  unfolding prepare
  prepare-IsAllowed w x a = Ensures-bind _ _ λ h built. Ensures-bind _ _ λ request allowed.
      Ensures-guard _ _ _ λ _. Ensures-bind _ _ λ _ _. Ensures-ok h (
        (request, authorize-IsSafe lib x.policy x.scope _ request (map_err-eq-ok _ _ allowed)),
        (headers-SentAs x a.identity a.extra_headers a.auth_override).at h built,
      )

  -- The call with another transport.
  abbrev pub with_transport :
      World → (AssessmentReplayRequest → Result ExecuteError ReplayRun) → World
  with_transport w send = record w { send = send }

  -- The reply is the same whatever the transport would answer.
  abbrev pub NotSent : (World → Reply) → World → Type 0
  NotSent call w =
      (send : AssessmentReplayRequest → Result ExecuteError ReplayRun)
      → call (with_transport w send) ≡ call w

  -- The reply depends on the transport through its answer to this one request only.
  abbrev pub SendsOnly : (World → Reply) → World → AssessmentReplayRequest → Type 0
  SendsOnly call w request =
      (send : AssessmentReplayRequest → Result ExecuteError ReplayRun)
      → send request ≡ w.send request
      → call (with_transport w send) ≡ call w

  abbrev pub Sends : (World → Reply) → World → AssessmentExecutor → Type 0
  Sends call w x =
      (scope : ScopePolicy) × (request : AssessmentReplayRequest) × (recheck_contract w x
        ≡ ok scope)
      × IsAllowed (record x { scope = scope }) request
      × SendsOnly call w request

  prepare-transport :
      (w : World) (send : AssessmentReplayRequest → Result ExecuteError ReplayRun)
      (x : AssessmentExecutor) (a : RequestArgs)
      → prepare lib (with_transport w send) x a ≡ prepare lib w x a
  unfolding prepare wait_for_rate_slot
  prepare-transport w send x a = refl

  recheck-transport :
      (w : World) (send : AssessmentReplayRequest → Result ExecuteError ReplayRun)
      (x : AssessmentExecutor)
      → recheck_contract (with_transport w send) x ≡ recheck_contract w x
  unfolding recheck_contract check_revision
  recheck-transport w send x = refl

  -- The request that follows the reservation.
  granted : AssessmentExecutor → RequestArgs → World → AssessmentExecutor
  granted x a w = record x {
    budget = (reserve_request a.phase x.budget).0;
    last_request_started = some w.now;
  }

  reserve_and_send-SendsOnly :
      (w : World) (x : AssessmentExecutor) (a : RequestArgs) (h : RequestHeaders)
      → SendsOnly (λ v. reserve_and_send v x a h) w (request_of (granted x a w) a h)
  unfolding reserve_and_send granted after_response
  reserve_and_send-SendsOnly w x a h send same =
      elim (Result-cases (reserve_request a.phase x.budget).1) [
        | inl (n, e) ↦ rw (e, reserve_and_send) (rw (same, reserve_and_send) refl)
        | inr (refusal, e) ↦ rw (e, reserve_and_send) refl
      ]

  prepare_and_send-cases :
      (w : World) (x : AssessmentExecutor) (a : RequestArgs)
      → NotSent (λ v. prepare_and_send lib v x a) w
        ⊎ ((request : AssessmentReplayRequest) × IsAllowed x request
            × SendsOnly (λ v. prepare_and_send lib v x a) w request)
  unfolding prepare_and_send granted
  prepare_and_send-cases w x a = elim (Result-cases (prepare lib w x a)) [
    | inl (h, ready) ↦ inr (
      request_of (granted x a w) a h,
      (prepare-IsAllowed w x a).at h ready,
      λ send answer.
          let same : prepare lib (with_transport w send) x a ≡ ok h =
            prepare-transport w send x a ∙ ready in
          rw (same, ready, prepare_and_send) (reserve_and_send-SendsOnly w x a h send answer),
    )
    | inr (e, refused) ↦ inl (λ send.
        let same : prepare lib (with_transport w send) x a ≡ err e =
          prepare-transport w send x a ∙ refused in
        rw (same, refused, prepare_and_send))
  ]

  execute_unless-cases :
      (cancelled : Bool) (w : World) (x : AssessmentExecutor) (a : RequestArgs)
      → NotSent (λ v. execute_unless lib cancelled v x a) w
        ⊎ Sends (λ v. execute_unless lib cancelled v x a) w x
  unfolding execute_unless
  execute_unless-cases true w x a = inl (λ send. refl)
  execute_unless-cases false w x a = elim (Result-cases (recheck_contract w x)) [
    | inr (e, drift) ↦ inl (λ send.
        let same : recheck_contract (with_transport w send) x ≡ err e =
          recheck-transport w send x ∙ drift in
        rw (same, drift, execute_unless))
    | inl (scope, current) ↦
        let same : (send : AssessmentReplayRequest → Result ExecuteError ReplayRun)
            → recheck_contract (with_transport w send) x ≡ ok scope =
          λ send. recheck-transport w send x ∙ current in
        let later = prepare_and_send-cases w (record x { scope = scope }) a in
        elim later [
          | inl unsent ↦ inl (λ send. rw (same send, current, execute_unless) (unsent send))
          | inr (request, allowed, only) ↦ inr (
            scope,
            request,
            current,
            allowed,
            λ send answer. rw (same send, current, execute_unless) (only send answer),
          )
        ]
  ]

  -- A call of the executor either does not reach the transport, so that its reply is the same
  -- whatever the transport would answer, or it depends on the transport through the answer to one
  -- request only. Then the contract was found current, the policy lets the method, the address and the
  -- audit headers of this very request through, with the scope of the project as it is now, and the
  -- headers that are sent are the audit headers, but for the secret in the last one.
  pub execute_internal-Sends_safely :
      (w : World) (x : AssessmentExecutor) (a : RequestArgs)
      → NotSent (λ v. execute_internal lib v x a) w ⊎ Sends (λ v. execute_internal lib v x a) w x
  unfolding execute_internal
  execute_internal-Sends_safely w x a = execute_unless-cases w.cancelled w x a
