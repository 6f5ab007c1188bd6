-- ===== src/Assessment/Verifier/Baseline.antt =====
-- src-tauri/src/assessment/verifier.rs: the verifier of the security headers and cookies.

use rust_forge.Base.{
  Bool, true, false, not, ◌&&◌, ◌||◌, List, [], ◌∷◌, ◌++◌, map, any, Option, none, some,
  is_some_and, if◌then◌else◌, ◌==◌,
}
use rust_forge.Text.{
  Text, codes, text_eq, one_of, trim, to_ascii_lowercase, contains_text, between, first_part, split,
  cons_head,
}
use rust_forge.Assessment.Verifier.Data.{
  ResponseObservation, VerificationOutcome, AssessmentEndpoint, UrlReader, Responses, confirmed,
  suspected, header_values, content_type, is_success, inconclusive_outcome, incomplete,
  not_observed, mentions,
}

-- The byte test on three neighbours; a text of more than ASCII has no digit in its other bytes.
unfoldable pub contains_version_number : Text → Bool
contains_version_number [] = false
contains_version_number (a ∷ []) = false
contains_version_number (a ∷ b ∷ []) = false
contains_version_number (a ∷ b ∷ c ∷ rest) =
    let later = contains_version_number (b ∷ c ∷ rest) in
    between b'0' b'9' a && b == b'.' && between b'0' b'9' c || later

-- The loop over the characters, with whether it is between quotes.
unfoldable pub split_attributes : Bool → Text → List Text
split_attributes in_quotes [] = [] ∷ []
split_attributes in_quotes (c ∷ cookie) =
    let flipped = split_attributes (not in_quotes) cookie in
    let same = split_attributes in_quotes cookie in
    if c == b'"'
    then cons_head c flipped
    else if c == b';' && not in_quotes
    then [] ∷ same
    else cons_head c same

abbrev pub split_cookie_attributes : Text → List Text
split_cookie_attributes cookie = split_attributes false cookie

abbrev pub empty_list : List Text → Bool
empty_list [] = true
empty_list (_ ∷ _) = false

abbrev pub fact_if : Bool → Text → List Text
fact_if true kind = kind ∷ []
fact_if false kind = []

unfoldable pub is_session_like : Text → Bool
is_session_like cookie =
    mentions (to_ascii_lowercase (trim (first_part (split (λ c. c == b'=') cookie)))) (
      codes "session"
      ∷ codes "sess"
      ∷ codes "auth"
      ∷ codes "token"
      ∷ codes "jwt"
      ∷ codes "sid"
      ∷ [])

-- The gaps of one cookie.
unfoldable pub cookie_gaps : Bool → Text → List Text
cookie_gaps https cookie =
    let names = map trim (split_cookie_attributes (to_ascii_lowercase cookie)) in
    if is_session_like cookie
    then fact_if (not (one_of names (codes "httponly"))) (codes "session_cookie_missing_httponly")
      ++ fact_if (https && not (one_of names (codes "secure")))
          (codes "session_cookie_missing_secure")
    else []

unfoldable pub all_cookie_gaps : Bool → List Text → List Text
all_cookie_gaps https [] = []
all_cookie_gaps https (cookie ∷ cookies) = cookie_gaps https cookie ++ all_cookie_gaps https cookies

abbrev pub type_or : Text → Option Text → Text
type_or fallback none = to_ascii_lowercase (trim fallback)
type_or fallback (some value) = value

unfoldable pub is_html : AssessmentEndpoint → ResponseObservation → Bool
is_html endpoint baseline =
    contains_text (codes "text/html") (type_or endpoint.content_type (content_type baseline))
    || one_of baseline.passive_indicators (codes "html_document")

unfoldable pub is_script_or_markup : AssessmentEndpoint → ResponseObservation → Bool
is_script_or_markup endpoint baseline =
    is_html endpoint baseline
    || mentions (type_or endpoint.content_type (content_type baseline))
        (codes "javascript" ∷ codes "ecmascript" ∷ codes "xml" ∷ [])

unfoldable pub has_nosniff : ResponseObservation → Bool
has_nosniff baseline =
    any (λ value. text_eq (to_ascii_lowercase (trim value)) (codes "nosniff"))
      (header_values baseline (codes "x-content-type-options"))

unfoldable pub has_frame_protection : ResponseObservation → Bool
has_frame_protection baseline =
    any (λ value. contains_text (codes "frame-ancestors") (to_ascii_lowercase value))
      (header_values baseline (codes "content-security-policy"))
    || not (empty_list (header_values baseline (codes "x-frame-options")))

unfoldable pub version_gaps : ResponseObservation → List Text → List Text
version_gaps baseline [] = []
version_gaps baseline (value ∷ values) =
    let rest = version_gaps baseline values in
    if contains_version_number value
    then codes "detailed_server_version_disclosure" ∷ rest
    else rest

unfoldable pub disclosure_gaps : ResponseObservation → List Text
disclosure_gaps baseline =
    version_gaps baseline (header_values baseline (codes "server"))
    ++ (version_gaps baseline (header_values baseline (codes "x-powered-by"))
        ++ version_gaps baseline (header_values baseline (codes "x-aspnet-version")))

-- `join(",")`
unfoldable pub joined : List Text → Text
joined [] = []
joined (value ∷ []) = value
joined (value ∷ next ∷ values) = value ++ b',' ∷ joined (next ∷ values)

abbrev pub header_text : ResponseObservation → Text → Text
header_text baseline name = to_ascii_lowercase (joined (header_values baseline name))

unfoldable pub has_open_cache : AssessmentEndpoint → ResponseObservation → Bool
has_open_cache endpoint baseline =
    let cache_control = header_text baseline (codes "cache-control") in
    endpoint.has_authentication
    && is_success baseline
    && not (contains_text (codes "no-store") cache_control)
    && not (contains_text (codes "private") cache_control)
    && not (contains_text (codes "no-cache") (header_text baseline (codes "pragma")))

unfoldable pub indicator_gaps : List Text → List Text
indicator_gaps [] = []
indicator_gaps (name ∷ names) =
    let rest = indicator_gaps names in
    if one_of (codes "directory_listing" ∷ codes "stack_trace" ∷ codes "database_error_detail" ∷ [])
      name
    then name ∷ rest
    else rest

unfoldable pub indicator_hints : List Text → List Text
indicator_hints [] = []
indicator_hints (name ∷ names) =
    let rest = indicator_hints names in
    if text_eq name (codes "api_documentation") then name ∷ rest else rest

-- The last three branches, by the gaps and the hints.
abbrev pub baseline_outcome : ResponseObservation → (gaps hints : List Text) → VerificationOutcome
baseline_outcome baseline [] [] = not_observed (codes "security_misconfiguration") baseline
baseline_outcome baseline [] (hint ∷ hints) = record {
  verdict = suspected;
  facts = [];
  suspected_facts = hint ∷ hints;
  vuln_type = codes "security_misconfiguration";
  severity = codes "info";
  confidence = 70;
  evidence_replay_run_id = some baseline.replay_run_id;
}
baseline_outcome baseline (gap ∷ gaps) hints = record {
  verdict = confirmed;
  facts = gap ∷ gaps;
  suspected_facts = hints;
  vuln_type = codes "security_misconfiguration";
  severity = codes "low";
  confidence = 100;
  evidence_replay_run_id = some baseline.replay_run_id;
}

module _ {Url : Type 0} (lib : UrlReader Url) where
  unfoldable pub is_https : ResponseObservation → Bool
  is_https baseline =
      is_some_and (λ u. text_eq (lib.scheme u) (codes "https")) (lib.parse baseline.url)

  unfoldable pub is_dns_host : ResponseObservation → Bool
  is_dns_host baseline =
      is_some_and
        (λ u.
          is_some_and (λ host. not (text_eq host (codes "localhost")) && not (lib.is_ip_addr host))
            (lib.host_str u))
        (lib.parse baseline.url)

  -- The gaps, in the order in which they are pushed.
  unfoldable pub baseline_gaps : AssessmentEndpoint → ResponseObservation → List Text
  baseline_gaps endpoint baseline =
      fact_if
        (is_https baseline
          && is_dns_host baseline
          && empty_list (header_values baseline (codes "strict-transport-security")))
        (codes "missing_hsts")
      ++ (all_cookie_gaps (is_https baseline) (header_values baseline (codes "set-cookie"))
          ++ (fact_if (is_script_or_markup endpoint baseline && not (has_nosniff baseline))
                (codes "missing_nosniff")
              ++ (fact_if (is_html endpoint baseline && not (has_frame_protection baseline))
                    (codes "missing_frame_embedding_protection")
                  ++ (disclosure_gaps baseline ++ indicator_gaps baseline.passive_indicators))))

  unfoldable pub baseline_hints : AssessmentEndpoint → ResponseObservation → List Text
  baseline_hints endpoint baseline =
      fact_if
        (is_html endpoint baseline
          && empty_list (header_values baseline (codes "content-security-policy")))
        (codes "content_security_policy_not_observed")
      ++ (fact_if (has_open_cache endpoint baseline)
            (codes "authenticated_response_cache_boundary_unproven")
          ++ indicator_hints baseline.passive_indicators)

  abbrev pub security_headers_of :
      AssessmentEndpoint → Option ResponseObservation → VerificationOutcome
  security_headers_of endpoint none = inconclusive_outcome (codes "security_misconfiguration")
  security_headers_of endpoint (some baseline) =
      if not baseline.complete
      then incomplete
      else baseline_outcome baseline (baseline_gaps endpoint baseline)
          (baseline_hints endpoint baseline)

  unfoldable pub verify_security_headers : AssessmentEndpoint → Responses → VerificationOutcome
  verify_security_headers endpoint responses =
      security_headers_of endpoint (responses (codes "baseline"))
