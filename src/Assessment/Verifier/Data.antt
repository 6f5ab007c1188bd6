-- ===== src/Assessment/Verifier/Data.antt =====
-- src-tauri/src/assessment/verifier.rs: what is observed of a response, and what a verifier says of
-- it. Titles, reasons and the JSON of the observations are left out, but for the facts that the
-- security baseline lists. The size of a captured body is a natural number.
use rust_forge.Base.{
  ℕ, Bool, true, false, not, ◌&&◌, List, [], ◌∷◌, ◌++◌, any, take, Option, none, some, is_some_and,
  if◌then◌else◌, leb, ltb, ◌==◌,
}
use rust_forge.Text.{Text, codes, text_eq, trim, to_ascii_lowercase, contains_text, sort_texts}
use rust_forge.Assessment.Policy.{ReplayHeader}

pub data AssessmentVerdict : Type 0 where
  confirmed : AssessmentVerdict
  suspected : AssessmentVerdict
  not_seen : AssessmentVerdict
  inconclusive : AssessmentVerdict
  skipped : AssessmentVerdict

abbrev pub is_confirmed : AssessmentVerdict → Bool
is_confirmed confirmed = true
is_confirmed _ = false

pub record ResponseObservation : Type 0 where
  pub replay_run_id : ℕ
  pub url : Text
  pub status : Option ℕ
  pub headers : List ReplayHeader
  pub body_hash : Option Text
  pub body_size : ℕ
  pub complete : Bool
  pub passive_indicators : List Text

-- What `ReplayRun` says of a response.
pub record ObservedRun : Type 0 where
  pub id : ℕ
  pub url : Text
  pub status : Option ℕ
  pub response_headers : List ReplayHeader
  pub resp_body_hash : Option Text
  pub resp_captured_size : ℕ
  pub outcome : Text
  pub resp_truncated : Bool
  pub response_body_text : Option Text

abbrev pub is_complete : ObservedRun → Bool
is_complete run = text_eq run.outcome (codes "completed") && not run.resp_truncated

abbrev pub mentions : Text → List Text → Bool
mentions body words = any (λ w. contains_text w body) words

abbrev pub indicator_if : Bool → Text → List Text
indicator_if true name = name ∷ []
indicator_if false name = []

-- `dedup()`, which drops what equals the one before it.
abbrev pub drop_first : Text → List Text → List Text
drop_first s [] = s ∷ []
drop_first s (t ∷ ts) = if text_eq s t then t ∷ ts else s ∷ t ∷ ts

unfoldable pub dedup : List Text → List Text
dedup [] = []
dedup (s ∷ ss) = drop_first s (dedup ss)

-- The tests on the start of a body, in their order.
unfoldable pub indicators_of : Text → List Text
indicators_of body =
    indicator_if (mentions body (codes "<html" ∷ codes "<!doctype html" ∷ []))
      (codes "html_document")
    ++ (indicator_if
          (mentions body (
            codes "<title>index of /"
            ∷ codes "directory listing for /"
            ∷ codes "parent directory</a>"
            ∷ []))
          (codes "directory_listing")
        ++ (indicator_if
              (mentions body (
                codes "traceback (most recent call last)"
                ∷ codes "exception in thread"
                ∷ codes "stack trace:"
                ∷ codes " at org.springframework."
                ∷ codes " at java.base/"
                ∷ []))
              (codes "stack_trace")
            ++ (indicator_if
                  (mentions body (
                    codes "sqlstate["
                    ∷ codes "you have an error in your sql syntax"
                    ∷ codes "syntax error at or near"
                    ∷ codes "ora-00933"
                    ∷ []))
                  (codes "database_error_detail")
                ++ indicator_if
                    (mentions body
                      (codes "\"openapi\"" ∷ codes "\"swagger\"" ∷ codes "swagger-ui" ∷ []))
                    (codes "api_documentation"))))

abbrev pub text_or_empty : Option Text → Text
text_or_empty none = []
text_or_empty (some s) = s

unfoldable pub passive_indicators : ObservedRun → List Text
passive_indicators run =
    if is_complete run
    then dedup (
        sort_texts
          (indicators_of (to_ascii_lowercase (take 524288 (text_or_empty run.response_body_text)))))
    else []

-- `ResponseObservation::from`
unfoldable pub observation_of : ObservedRun → ResponseObservation
observation_of run = record {
  replay_run_id = run.id;
  url = run.url;
  status = run.status;
  headers = run.response_headers;
  body_hash = run.resp_body_hash;
  body_size = run.resp_captured_size;
  complete = is_complete run;
  passive_indicators = passive_indicators run;
}

pub record VerificationOutcome : Type 0 where
  pub verdict : AssessmentVerdict
  -- the kinds of `facts` and `suspectedFacts`
  pub facts : List Text
  pub suspected_facts : List Text
  pub vuln_type : Text
  pub severity : Text
  pub confidence : ℕ
  pub evidence_replay_run_id : Option ℕ

-- What the verifiers read of `AssessmentEndpoint`.
pub record AssessmentEndpoint : Type 0 where
  pub content_type : Text
  pub has_authentication : Bool
  pub resource_owner_profile_id : Option ℕ

-- The crate `url` and the reader of IP addresses, as far as they are called.
pub record UrlReader (Url : Type 0) : Type 0 where
  pub parse : Text → Option Url
  pub join : Url → Text → Option Url
  pub scheme : Url → Text
  pub host_str : Url → Option Text
  pub is_ip_addr : Text → Bool

-- `responses.get(name)`
abbrev pub Responses : Type 0
Responses = Text → Option ResponseObservation

abbrev pub header_values_from : Text → List ReplayHeader → List Text
header_values_from name [] = []
header_values_from name (h ∷ headers) =
    let rest = header_values_from name headers in
    if text_eq (to_ascii_lowercase h.name) (to_ascii_lowercase name) then h.value ∷ rest else rest

unfoldable pub header_values : ResponseObservation → Text → List Text
header_values response name = header_values_from name response.headers

abbrev pub first_of : List Text → Option Text
first_of [] = none
first_of (value ∷ _) = some (to_ascii_lowercase (trim value))

unfoldable pub content_type : ResponseObservation → Option Text
content_type response = first_of (header_values response (codes "content-type"))

abbrev pub texts_eq : Option Text → Option Text → Bool
texts_eq none none = true
texts_eq none (some _) = false
texts_eq (some _) none = false
texts_eq (some s) (some t) = text_eq s t

abbrev pub statuses_eq : Option ℕ → Option ℕ → Bool
statuses_eq none none = true
statuses_eq none (some _) = false
statuses_eq (some _) none = false
statuses_eq (some m) (some n) = m == n

-- `status.is_some_and(|status| (200..300).contains(&status))`
abbrev pub is_success : ResponseObservation → Bool
is_success r = is_some_and (λ s. leb 200 s && ltb s 300) r.status

abbrev pub inconclusive_outcome : Text → VerificationOutcome
inconclusive_outcome vuln_type = record {
  verdict = inconclusive;
  facts = [];
  suspected_facts = [];
  vuln_type = vuln_type;
  severity = codes "info";
  confidence = 0;
  evidence_replay_run_id = none;
}

abbrev pub incomplete : VerificationOutcome
incomplete = inconclusive_outcome (codes "incomplete_response")

abbrev pub missing_pair : Text → VerificationOutcome
missing_pair = inconclusive_outcome

abbrev pub not_observed : Text → ResponseObservation → VerificationOutcome
not_observed vuln_type response = record {
  verdict = not_seen;
  facts = [];
  suspected_facts = [];
  vuln_type = vuln_type;
  severity = codes "info";
  confidence = 100;
  evidence_replay_run_id = some response.replay_run_id;
}

-- An outcome that says something of a response.
abbrev pub outcome_of :
    AssessmentVerdict → Text → Text → ℕ → ResponseObservation → VerificationOutcome
outcome_of verdict vuln_type severity confidence response = record {
  verdict = verdict;
  facts = [];
  suspected_facts = [];
  vuln_type = vuln_type;
  severity = severity;
  confidence = confidence;
  evidence_replay_run_id = some response.replay_run_id;
}
