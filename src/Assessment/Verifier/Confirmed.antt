-- ===== src/Assessment/Verifier/Confirmed.antt =====
-- src-tauri/src/assessment/verifier.rs: what a confirmed outcome rests on.
use rust_forge.Base.{
  ◌≡◌, refl, sym, subst, inl, inr, Bool, true, false, not, ◌&&◌, ◌||◌, List, [], ◌∷◌, any, Option,
  none, some, is_some, is_some_and, if◌then◌else◌, Bool-cases, arith, leb, ltb,
}
use rust_forge.Text.{Text, codes, text_eq}
use rust_forge.Text.Laws.{text_eq→eq}
use rust_forge.Assessment.Catalog.{tool, find_tool}
use rust_forge.Assessment.Catalog.Spec.{ToolSpec}
use rust_forge.Assessment.Verifier.Data.{
  ResponseObservation, VerificationOutcome, AssessmentEndpoint, UrlReader, Responses,
  inconclusive_outcome, is_confirmed, is_success, header_values,
}
use rust_forge.Assessment.Verifier.Baseline.{
  verify_security_headers, security_headers_of, baseline_outcome, baseline_gaps, baseline_hints,
}
use rust_forge.Assessment.Verifier.{
  verify, verify_cors, cors_of, verify_jwt, jwt_of, verify_open_redirect, redirect_of,
  verify_reflection, reflection_of, verify_idor, idor_of, verify_options_capabilities, options_of,
  verify_identity_visibility, visibility_of, is_reflected, allows_credentials, has_same_content,
  is_accepted, is_rejected, is_equivalent, advertises_risk, is_external,
}

-- One of the responses was received in full and is the evidence, with full confidence.
pub record IsBacked (responses : Responses) (o : VerificationOutcome) : Type 0 where
  pub name : Text
  pub response : ResponseObservation
  pub given : responses name ≡ some response
  pub whole : response.complete ≡ true
  pub evidence : o.evidence_replay_run_id ≡ some response.replay_run_id
  pub certain : o.confidence ≡ 100

abbrev BacksConfirmed : Responses → VerificationOutcome → Type 0
BacksConfirmed responses o = is_confirmed o.verdict ≡ true → IsBacked responses o

if-Backs :
    (responses : Responses) (t : Bool) (o p : VerificationOutcome)
    → (t ≡ true → BacksConfirmed responses o)
    → (t ≡ false → BacksConfirmed responses p)
    → BacksConfirmed responses (if t then o else p)
if-Backs responses true o p h k = h refl
if-Backs responses false o p h k = k refl

module _ (responses : Responses) where
  backed :
      (name : Text) (r : ResponseObservation) (o : VerificationOutcome)
      → responses name ≡ some r
      → r.complete ≡ true
      → o.evidence_replay_run_id ≡ some r.replay_run_id
      → o.confidence ≡ 100
      → BacksConfirmed responses o
  backed name r o given whole evidence certain _ = record {
    name = name;
    response = r;
    given = given;
    whole = whole;
    evidence = evidence;
    certain = certain;
  }

  cors-Backs :
      (baseline anonymous probe : Option ResponseObservation)
      → responses (codes "probe") ≡ probe
      → BacksConfirmed responses (cors_of baseline anonymous probe)
  cors-Backs (some b) (some a) (some p) e =
      if-Backs responses (not b.complete || not a.complete || not p.complete) _ _ (λ _ c. cc)
        (λ all_complete.
          if-Backs responses (is_success b && is_success a && has_same_content a b) _ _ (λ _ c. cc)
            (λ _.
              if-Backs responses
                (is_success b && is_success p && is_reflected p && allows_credentials p) _ _
                (λ _. backed (codes "probe") p _ e (ground arith) refl refl) (λ _ c. cc)))
  cors-Backs (some b) (some a) none e = λ c. cc
  cors-Backs (some b) none p e = λ c. cc
  cors-Backs none a p e = λ c. cc

  jwt-Backs :
      (baseline anonymous s a : Option ResponseObservation)
      → responses (codes "signature_probe") ≡ s
      → responses (codes "alg_none_probe") ≡ a
      → BacksConfirmed responses (jwt_of baseline anonymous s a)
  jwt-Backs (some b) (some n) (some s) (some a) es ea =
      if-Backs responses (not b.complete || not n.complete || not s.complete || not a.complete) _ _
        (λ _ c. cc)
        (λ all_complete.
          if-Backs responses (is_rejected n && is_accepted b s) _ _
            (λ _. backed (codes "signature_probe") s _ es (ground arith) refl refl)
            (λ _.
              if-Backs responses (is_rejected n && is_accepted b a) _ _
                (λ _. backed (codes "alg_none_probe") a _ ea (ground arith) refl refl) (λ _ c. cc)))
  jwt-Backs (some b) (some n) (some s) none es ea = λ c. cc
  jwt-Backs (some b) (some n) none a es ea = λ c. cc
  jwt-Backs (some b) none s a es ea = λ c. cc
  jwt-Backs none n s a es ea = λ c. cc

  idor-Backs :
      (endpoint : AssessmentEndpoint) (a b : Option ResponseObservation)
      → responses (codes "identity_b") ≡ b
      → BacksConfirmed responses (idor_of endpoint a b)
  idor-Backs endpoint (some a) (some b) e =
      if-Backs responses (not a.complete || not b.complete) _ _ (λ _ c. cc)
        (λ all_complete.
          if-Backs responses (not (is_equivalent a b)) _ _ (λ _ c. cc)
            (λ _.
              if-Backs responses (is_some endpoint.resource_owner_profile_id) _ _
                (λ _. backed (codes "identity_b") b _ e (ground arith) refl refl) (λ _ c. cc)))
  idor-Backs endpoint (some a) none e = λ c. cc
  idor-Backs endpoint none b e = λ c. cc

  gaps-Backs :
      (b : ResponseObservation) (gaps hints : List Text)
      → responses (codes "baseline") ≡ some b
      → b.complete ≡ true
      → BacksConfirmed responses (baseline_outcome b gaps hints)
  gaps-Backs b [] [] e whole = λ c. cc
  gaps-Backs b [] (_ ∷ _) e whole = λ c. cc
  gaps-Backs b (g ∷ gaps) hints e whole = backed (codes "baseline") b _ e whole refl refl

  module _ {Url : Type 0} (lib : UrlReader Url) where
    headers-Backs :
        (endpoint : AssessmentEndpoint) (baseline : Option ResponseObservation)
        → responses (codes "baseline") ≡ baseline
        → BacksConfirmed responses (security_headers_of lib endpoint baseline)
    headers-Backs endpoint none e = λ c. cc
    headers-Backs endpoint (some b) e =
        if-Backs responses (not b.complete) _ _ (λ _ c. cc)
          (λ whole.
            gaps-Backs b (baseline_gaps lib endpoint b) (baseline_hints lib endpoint b) e
              (ground arith))

    redirect-Backs :
        (probe : Option ResponseObservation)
        → responses (codes "probe") ≡ probe
        → BacksConfirmed responses (redirect_of lib probe)
    redirect-Backs none e = λ c. cc
    redirect-Backs (some p) e =
        if-Backs responses (not p.complete) _ _ (λ _ c. cc)
          (λ whole.
            if-Backs responses
              (is_some_and (λ s. leb 300 s && ltb s 400) p.status
                && any (is_external lib p) (header_values p (codes "location")))
              _ _ (λ _. backed (codes "probe") p _ e (ground arith) refl refl) (λ _ c. cc))

-- The outcome is not `confirmed`.
abbrev IsUnconfirmed : VerificationOutcome → Type 0
IsUnconfirmed o = is_confirmed o.verdict ≡ false

if-Unconfirmed :
    (t : Bool) (o p : VerificationOutcome)
    → IsUnconfirmed o
    → IsUnconfirmed p
    → IsUnconfirmed (if t then o else p)
if-Unconfirmed true o p h k = h
if-Unconfirmed false o p h k = k

reflection-Unconfirmed :
    (observed : Bool) (probe : Option ResponseObservation)
    → IsUnconfirmed (reflection_of observed probe)
reflection-Unconfirmed observed none = refl
reflection-Unconfirmed observed (some p) =
    if-Unconfirmed (not p.complete) _ _ refl (if-Unconfirmed observed _ _ refl refl)

options-Unconfirmed :
    (preflight : Option ResponseObservation) → IsUnconfirmed (options_of preflight)
options-Unconfirmed none = refl
options-Unconfirmed (some p) =
    if-Unconfirmed (not p.complete) _ _ refl (if-Unconfirmed (advertises_risk p) _ _ refl refl)

visibility-Unconfirmed :
    (endpoint : AssessmentEndpoint) (anonymous authenticated : Option ResponseObservation)
    → IsUnconfirmed (visibility_of endpoint anonymous authenticated)
visibility-Unconfirmed endpoint (some n) (some a) =
    if-Unconfirmed (not n.complete || not a.complete) _ _ refl (
      if-Unconfirmed (not (is_success n) || not (is_success a) || not endpoint.has_authentication) _
        _ refl refl)
visibility-Unconfirmed endpoint (some n) none = refl
visibility-Unconfirmed endpoint none a = refl

-- The registry lets the tool confirm a finding by itself.
abbrev pub may_confirm : Text → Bool
may_confirm template_id = is_some_and (λ (t : ToolSpec). t.can_auto_confirm) (tool template_id)

abbrev Vouches : Responses → Text → VerificationOutcome → Type 0
Vouches responses template_id o =
    is_confirmed o.verdict ≡ true → IsBacked responses o × (may_confirm template_id ≡ true)

arm :
    (responses : Responses) (template_id name : Text) (o p : VerificationOutcome)
    → BacksConfirmed responses o
    → may_confirm name ≡ true
    → Vouches responses template_id p
    → Vouches responses template_id (if text_eq template_id name then o else p)
arm responses template_id name o p backs may rest = elim (Bool-cases (text_eq template_id name)) [
  | inl same ↦ rw same (λ c.
      (backs c, subst (λ x. may_confirm x ≡ true) (sym (text_eq→eq template_id name same)) may))
  | inr other ↦ rw other rest
]

quiet_arm :
    (responses : Responses) (template_id : Text) (t : Bool) (o p : VerificationOutcome)
    → IsUnconfirmed o
    → Vouches responses template_id p
    → Vouches responses template_id (if t then o else p)
quiet_arm responses template_id true o p h rest = λ c. absurd (ground (arith, h, c))
quiet_arm responses template_id false o p h rest = rest

may_headers : may_confirm (codes "security_headers_cookie") ≡ true
unfolding tool find_tool
may_headers = refl

may_cors : may_confirm (codes "credentialed_cors") ≡ true
unfolding tool find_tool
may_cors = refl

may_jwt : may_confirm (codes "jwt_integrity") ≡ true
unfolding tool find_tool
may_jwt = refl

may_redirect : may_confirm (codes "open_redirect") ≡ true
unfolding tool find_tool
may_redirect = refl

may_idor : may_confirm (codes "readonly_idor") ≡ true
unfolding tool find_tool
may_idor = refl

-- An outcome that is confirmed comes from a tool that the registry lets confirm by itself, and its
-- evidence, with full confidence, is one of the responses, which was received completely.
pub verify-IsBacked :
    {Url : Type 0} (lib : UrlReader Url) (template_id : Text) (endpoint : AssessmentEndpoint)
    (responses : Responses) (reflection_observed : Bool)
    → is_confirmed (verify lib template_id endpoint responses reflection_observed).verdict ≡ true
    → IsBacked responses (verify lib template_id endpoint responses reflection_observed)
      × (may_confirm template_id ≡ true)
unfolding verify verify_security_headers verify_cors verify_jwt verify_open_redirect
    verify_reflection verify_idor verify_options_capabilities verify_identity_visibility
verify-IsBacked lib template_id endpoint responses reflection_observed =
    let is : Text → Bool = text_eq template_id in
    let visible = verify_identity_visibility endpoint responses in
    let options = verify_options_capabilities responses in
    let idor = verify_idor endpoint responses in
    let reflection = verify_reflection reflection_observed responses in
    let redirect = verify_open_redirect lib responses in
    let jwt = verify_jwt responses in
    let cors = verify_cors responses in
    let headers = verify_security_headers lib endpoint responses in
    let p7 = inconclusive_outcome (codes "unknown_template") in
    let p6 = if is (codes "anonymous_authenticated_diff") then visible else p7 in
    let p5 = if is (codes "options_capabilities") then options else p6 in
    let p4 = if is (codes "readonly_idor") then idor else p5 in
    let p3 = if is (codes "lazy_reflection") then reflection else p4 in
    let p2 = if is (codes "open_redirect") then redirect else p3 in
    let p1 = if is (codes "jwt_integrity") then jwt else p2 in
    let p0 = if is (codes "credentialed_cors") then cors else p1 in
    let quiet = quiet_arm responses template_id in
    let loud = arm responses template_id in
    loud (codes "security_headers_cookie") headers p0 (headers-Backs responses lib endpoint _ refl)
      may_headers
      (loud (codes "credentialed_cors") cors p1 (cors-Backs responses _ _ _ refl) may_cors (
        loud (codes "jwt_integrity") jwt p2 (jwt-Backs responses _ _ _ _ refl refl) may_jwt (
          loud (codes "open_redirect") redirect p3 (redirect-Backs responses lib _ refl)
            may_redirect
            (quiet (is (codes "lazy_reflection")) reflection p4
              (reflection-Unconfirmed reflection_observed _)
              (loud (codes "readonly_idor") idor p5 (idor-Backs responses endpoint _ _ refl)
                may_idor
                (quiet (is (codes "options_capabilities")) options p6 (options-Unconfirmed _) (
                  quiet (is (codes "anonymous_authenticated_diff")) visible p7
                    (visibility-Unconfirmed endpoint (responses (codes "anonymous"))
                      (responses (codes "baseline")))
                    (λ c. cc))))))))
