-- ===== src/Assessment/Verifier.antt =====
-- src-tauri/src/assessment/verifier.rs: the verifiers that compare the responses to a probe, and the
-- choice among all verifiers by the tool.
pub mod Data
pub mod Baseline
pub mod Confirmed
use rust_forge.Base.{
  ℕ, Bool, true, false, not, ◌&&◌, ◌||◌, List, [], ◌∷◌, ◌++◌, map, any, Option, none, some, is_some,
  is_some_and, if◌then◌else◌, leb, ltb, ◌==◌,
}
use rust_forge.Text.{
  Text, codes, text_eq, one_of, trim, to_ascii_lowercase, to_ascii_uppercase, split, is_empty,
  sort_texts,
}
use rust_forge.Assessment.Verifier.Data.{
  ResponseObservation, VerificationOutcome, AssessmentEndpoint, UrlReader, Responses, confirmed,
  suspected, header_values, content_type, texts_eq, statuses_eq, is_success, inconclusive_outcome,
  incomplete, missing_pair, not_observed, outcome_of,
}
use rust_forge.Assessment.Verifier.Baseline.{verify_security_headers, empty_list}

-- Two responses with the same body and the same type.
unfoldable pub has_same_content : ResponseObservation → ResponseObservation → Bool
has_same_content r s =
    texts_eq r.body_hash s.body_hash
    && r.body_size == s.body_size
    && texts_eq (content_type r) (content_type s)

unfoldable pub is_reflected : ResponseObservation → Bool
is_reflected probe =
    any (λ value. text_eq (trim value) (codes "https://rf-probe.invalid"))
      (header_values probe (codes "access-control-allow-origin"))

unfoldable pub allows_credentials : ResponseObservation → Bool
allows_credentials probe =
    any (λ value. text_eq (to_ascii_lowercase (trim value)) (codes "true"))
      (header_values probe (codes "access-control-allow-credentials"))

abbrev pub cors_of : (baseline anonymous probe : Option ResponseObservation) → VerificationOutcome
cors_of (some baseline) (some anonymous) (some probe) =
    if not baseline.complete || not anonymous.complete || not probe.complete
    then incomplete
    else if is_success baseline && is_success anonymous && has_same_content anonymous baseline
    then not_observed (codes "credentialed_cors") anonymous
    else if is_success baseline
        && is_success probe
        && is_reflected probe
        && allows_credentials probe
    then outcome_of confirmed (codes "credentialed_cors") (codes "high") 100 probe
    else not_observed (codes "credentialed_cors") probe
cors_of (some baseline) (some anonymous) none = missing_pair (codes "credentialed_cors")
cors_of (some baseline) none probe = missing_pair (codes "credentialed_cors")
cors_of none anonymous probe = missing_pair (codes "credentialed_cors")

unfoldable pub verify_cors : Responses → VerificationOutcome
verify_cors responses =
    cors_of (responses (codes "baseline")) (responses (codes "anonymous"))
      (responses (codes "probe"))

-- A probe that gets what the valid identity gets.
unfoldable pub is_accepted : ResponseObservation → ResponseObservation → Bool
is_accepted baseline probe =
    is_success baseline
    && not (baseline.body_size == 0)
    && is_some baseline.body_hash
    && statuses_eq probe.status baseline.status
    && has_same_content probe baseline

abbrev pub is_rejected : ResponseObservation → Bool
is_rejected r = is_some_and (λ s. s == 401 || s == 403) r.status

abbrev pub jwt_outcome : ResponseObservation → VerificationOutcome
jwt_outcome probe = outcome_of confirmed (codes "jwt_integrity") (codes "critical") 100 probe

-- The probes are tried in their order.
abbrev pub jwt_compared :
    (baseline anonymous signature_probe alg_none_probe : ResponseObservation) → VerificationOutcome
jwt_compared baseline anonymous signature_probe alg_none_probe =
    if is_rejected anonymous && is_accepted baseline signature_probe
    then jwt_outcome signature_probe
    else if is_rejected anonymous && is_accepted baseline alg_none_probe
    then jwt_outcome alg_none_probe
    else not_observed (codes "jwt_integrity") baseline

abbrev pub jwt_of :
    (baseline anonymous signature_probe alg_none_probe : Option ResponseObservation)
    → VerificationOutcome
jwt_of (some baseline) (some anonymous) (some signature_probe) (some alg_none_probe) =
    if not baseline.complete
      || not anonymous.complete
      || not signature_probe.complete
      || not alg_none_probe.complete
    then incomplete
    else jwt_compared baseline anonymous signature_probe alg_none_probe
jwt_of (some baseline) (some anonymous) (some s) none = missing_pair (codes "jwt_integrity")
jwt_of (some baseline) (some anonymous) none a = missing_pair (codes "jwt_integrity")
jwt_of (some baseline) none s a = missing_pair (codes "jwt_integrity")
jwt_of none anonymous s a = missing_pair (codes "jwt_integrity")

unfoldable pub verify_jwt : Responses → VerificationOutcome
verify_jwt responses =
    jwt_of (responses (codes "baseline")) (responses (codes "anonymous"))
      (responses (codes "signature_probe")) (responses (codes "alg_none_probe"))

abbrev pub reflection_of : Bool → Option ResponseObservation → VerificationOutcome
reflection_of observed none = missing_pair (codes "controllable_reflection")
reflection_of observed (some probe) =
    if not probe.complete
    then incomplete
    else if observed
    then outcome_of suspected (codes "controllable_reflection") (codes "info") 70 probe
    else not_observed (codes "controllable_reflection") probe

unfoldable pub verify_reflection : (reflection_observed : Bool) → Responses → VerificationOutcome
verify_reflection reflection_observed responses =
    reflection_of reflection_observed (responses (codes "probe"))

-- The two identities get the same full response.
unfoldable pub is_equivalent : ResponseObservation → ResponseObservation → Bool
is_equivalent a b =
    is_success a
    && statuses_eq b.status a.status
    && not (a.body_size == 0)
    && is_some a.body_hash
    && has_same_content b a

abbrev pub idor_of : AssessmentEndpoint → (a b : Option ResponseObservation) → VerificationOutcome
idor_of endpoint (some a) (some b) =
    if not a.complete || not b.complete
    then incomplete
    else if not (is_equivalent a b)
    then not_observed (codes "readonly_idor") b
    else if is_some endpoint.resource_owner_profile_id
    then outcome_of confirmed (codes "readonly_idor") (codes "high") 100 b
    else outcome_of suspected (codes "readonly_idor") (codes "high") 75 b
idor_of endpoint (some a) none = missing_pair (codes "readonly_idor")
idor_of endpoint none b = missing_pair (codes "readonly_idor")

unfoldable pub verify_idor : AssessmentEndpoint → Responses → VerificationOutcome
verify_idor endpoint responses =
    idor_of endpoint (responses (codes "identity_a")) (responses (codes "identity_b"))

unfoldable pub methods_of : List Text → List Text
methods_of [] = []
methods_of (value ∷ values) =
    map (λ m. to_ascii_uppercase (trim m)) (split (λ c. c == b',') value) ++ methods_of values

-- Whether TRACE or CONNECT is among the methods that are advertised.
unfoldable pub advertises_risk : ResponseObservation → Bool
advertises_risk preflight =
    any (λ method. one_of (codes "TRACE" ∷ codes "CONNECT" ∷ []) method)
      (methods_of (
        header_values preflight (codes "allow")
        ++ header_values preflight (codes "access-control-allow-methods")))

abbrev pub options_of : Option ResponseObservation → VerificationOutcome
options_of none = missing_pair (codes "options_capabilities")
options_of (some preflight) =
    if not preflight.complete
    then incomplete
    else if advertises_risk preflight
    then outcome_of suspected (codes "options_capabilities") (codes "info") 70 preflight
    else not_observed (codes "options_capabilities") preflight

unfoldable pub verify_options_capabilities : Responses → VerificationOutcome
verify_options_capabilities responses = options_of (responses (codes "preflight"))

abbrev pub visibility_of :
    AssessmentEndpoint
    → (anonymous authenticated : Option ResponseObservation) → VerificationOutcome
visibility_of endpoint (some anonymous) (some authenticated) =
    if not anonymous.complete || not authenticated.complete
    then incomplete
    else if not (is_success anonymous)
        || not (is_success authenticated)
        || not endpoint.has_authentication
    then not_observed (codes "identity_visibility") anonymous
    else outcome_of suspected (codes "identity_visibility") (codes "info")
        (if is_some authenticated.body_hash && has_same_content authenticated anonymous
          then 80
          else 60)
        anonymous
visibility_of endpoint (some anonymous) none = missing_pair (codes "identity_visibility")
visibility_of endpoint none authenticated = missing_pair (codes "identity_visibility")

unfoldable pub verify_identity_visibility : AssessmentEndpoint → Responses → VerificationOutcome
verify_identity_visibility endpoint responses =
    visibility_of endpoint (responses (codes "anonymous")) (responses (codes "baseline"))

module _ {Url : Type 0} (lib : UrlReader Url) where
  abbrev pub is_external_target : Url → Bool
  is_external_target target =
      text_eq (lib.scheme target) (codes "https")
      && is_some_and (λ host. text_eq host (codes "rf-probe.invalid")) (lib.host_str target)

  unfoldable pub is_external : ResponseObservation → Text → Bool
  is_external probe location =
      is_some_and (λ base. is_some_and is_external_target (lib.join base location))
        (lib.parse probe.url)

  abbrev pub redirect_of : Option ResponseObservation → VerificationOutcome
  redirect_of none = missing_pair (codes "open_redirect")
  redirect_of (some probe) =
      if not probe.complete
      then incomplete
      else if is_some_and (λ s. leb 300 s && ltb s 400) probe.status
          && any (is_external probe) (header_values probe (codes "location"))
      then outcome_of confirmed (codes "open_redirect") (codes "medium") 100 probe
      else not_observed (codes "open_redirect") probe

  unfoldable pub verify_open_redirect : Responses → VerificationOutcome
  verify_open_redirect responses = redirect_of (responses (codes "probe"))

  unfoldable pub verify :
      (template_id : Text)
      → AssessmentEndpoint
      → Responses
      → (reflection_observed : Bool) → VerificationOutcome
  verify template_id endpoint responses reflection_observed =
      if text_eq template_id (codes "security_headers_cookie")
      then verify_security_headers lib endpoint responses
      else if text_eq template_id (codes "credentialed_cors")
      then verify_cors responses
      else if text_eq template_id (codes "jwt_integrity")
      then verify_jwt responses
      else if text_eq template_id (codes "open_redirect")
      then verify_open_redirect responses
      else if text_eq template_id (codes "lazy_reflection")
      then verify_reflection reflection_observed responses
      else if text_eq template_id (codes "readonly_idor")
      then verify_idor endpoint responses
      else if text_eq template_id (codes "options_capabilities")
      then verify_options_capabilities responses
      else if text_eq template_id (codes "anonymous_authenticated_diff")
      then verify_identity_visibility endpoint responses
      else inconclusive_outcome (codes "unknown_template")
