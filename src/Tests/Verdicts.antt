-- ===== src/Tests/Verdicts.antt =====
-- Verdicts on responses and the validation of an analysis at concrete inputs.
use rust_forge.Base.{
  if◌then◌else◌, ℕ, ◌≡◌, ◌≢◌, ◌==◌, ◌≤◌, refl, true, false, List, [], ◌∷◌, length, All, Option,
  none, some, Result, ok, ◌>>=◌, err,
}
use rust_forge.Text.{
  Text, codes, one_of, trim, trim_end_matches, trim_start_matches, strip_suffix, strip_prefix,
  is_whitespace,
}
use rust_forge.Text.Utf8.{as_bytes}
use rust_forge.Assessment.Verifier.Data.{
  ResponseObservation, AssessmentEndpoint, UrlReader, Responses, is_confirmed, header_values,
  content_type, AssessmentVerdict, outcome_of,
}
use rust_forge.Assessment.Verifier.{verify, verify_idor, is_equivalent, has_same_content}
use rust_forge.Assessment.Verifier.Confirmed.{IsBacked, may_confirm, verify-IsBacked}
use rust_forge.Assessment.Outcome.{
  FindingStatus, Finding, Store, VerificationCommitInput, VerificationCommitResult, CommitError,
  World, commit_verification_outcome, commit_finding, existing_finding, evidence_of, with_evidence,
}
use rust_forge.Assessment.Outcome.Human.{
  find_by_id, IsKeyed, IsMoved, commit_verification_outcome-Moved,
}
use rust_forge.Assessment.Outcome.Cited.{verified_commits_cite}
use rust_forge.Ai.Json.{
  parse_llm_json, balanced_json_end, json_candidate_starts, strip_code_fence, starts_from,
  try_starts, scan, step,
}
use rust_forge.Ai.Validation.{
  Hypothesis, AnalysisResult, hypothesis_errors, severity_of, parse_and_validate, kept_result,
  analysis_errors, max_hypotheses,
}
use rust_forge.Ai.Validation.Calibrated.{IsCalibrated, parse_and_validate-IsCalibrated}

abbrev reader : UrlReader Text
reader = record {
  parse = λ raw. some raw;
  join = λ base location. some location;
  scheme = λ u. codes "https";
  host_str = λ u. some u;
  is_ip_addr = λ host. false;
}

abbrev order : ResponseObservation
order = record {
  replay_run_id = 4;
  url = codes "https://shop.test/orders/7";
  status = some 200;
  headers = [];
  body_hash = some (codes "ab");
  body_size = 12;
  complete = true;
  passive_indicators = [];
}

abbrev owned : AssessmentEndpoint
owned = record {
  content_type = codes "application/json";
  has_authentication = true;
  resource_owner_profile_id = some 1;
}

abbrev both : Responses
both name = if one_of (codes "identity_a" ∷ codes "identity_b" ∷ []) name then some order else none

-- Both identities read the order that belongs to the first.
both_read : is_confirmed (verify reader (codes "readonly_idor") owned both false).verdict ≡ true
unfolding verify verify_idor is_equivalent has_same_content header_values content_type one_of
both_read = refl

verify-IsBacked_example :
    IsBacked both (verify reader (codes "readonly_idor") owned both false)
    × (may_confirm (codes "readonly_idor") ≡ true)
verify-IsBacked_example = verify-IsBacked reader (codes "readonly_idor") owned both false both_read

abbrev injection : Hypothesis
injection = record {
  vuln_type = codes "sqli";
  param = codes "id";
  standard_references = [];
  severity = codes "critical";
  confidence = 95;
  reasoning = codes "error text";
  verify_steps = codes "send a quote";
  evidence_refs = codes "response.headers" ∷ [];
  is_grounded = false;
}

abbrev analysis : AnalysisResult
analysis = record {
  purpose = codes "lookup";
  suspicious_params = codes "id" ∷ codes "ID" ∷ [];
  hypotheses = injection ∷ injection ∷ [];
  summary = codes "one parameter";
}

abbrev read_analysis : List ℕ → Result Text AnalysisResult
read_analysis bytes = ok analysis

abbrev as_is : Text → Text
as_is s = s

abbrev no_cards : List Text → Option (List Text)
no_cards references = some []

abbrev sent : List Text
sent = codes "response.headers" ∷ codes "response.status" ∷ []

abbrev validated_analysis : AnalysisResult
validated_analysis = kept_result as_is no_cards sent analysis

analysis_accepted :
    parse_and_validate as_is no_cards read_analysis (codes "{}") sent ≡ ok validated_analysis
unfolding parse_and_validate parse_llm_json strip_code_fence json_candidate_starts starts_from
    try_starts balanced_json_end scan step analysis_errors hypothesis_errors severity_of one_of
    ◌>>=◌ as_bytes trim trim_end_matches trim_start_matches strip_suffix strip_prefix is_whitespace
analysis_accepted = refl

parse_and_validate-IsCalibrated_example :
    (length validated_analysis.hypotheses ≤ max_hypotheses)
    × All (IsCalibrated sent) validated_analysis.hypotheses
parse_and_validate-IsCalibrated_example =
    parse_and_validate-IsCalibrated as_is no_cards read_analysis (codes "{}") sent
      validated_analysis analysis_accepted

-- One finding that a person has rejected, and one that is open.
abbrev finding : ℕ → Text → FindingStatus → Finding
finding id fingerprint status = record {
  id = id;
  fingerprint = fingerprint;
  vuln_type = codes "readonly_idor";
  severity = codes "high";
  confidence = 75;
  status = status;
  occurrences = 1;
}

abbrev kept_findings : Store
kept_findings = record {
  verifications = [];
  findings =
      finding 1 (codes "f1") FindingStatus.rejected
      ∷ finding 2 (codes "f2") FindingStatus.pending
      ∷ [];
  finding_events = [];
  finding_links = [];
  finding_evidence = [];
  committed = [];
  next_verification_id = 1;
  next_finding_id = 3;
}

kept_findings-IsKeyed : IsKeyed kept_findings
kept_findings-IsKeyed = record { own = (refl, (refl, tt)); free = refl }

abbrev linked_world : World
linked_world = record {
  exact_origin = some (codes "https://shop.test");
  fingerprint = λ origin. codes "f2";
  replay_linked = λ id. id == 4;
  insert_evidence = λ id. ok (9, true);
}

abbrev read_by_both : VerificationCommitInput
read_by_both = record {
  check_id = 5;
  template_id = codes "readonly_idor";
  verifier_version = codes "1";
  outcome = outcome_of AssessmentVerdict.confirmed (codes "readonly_idor") (codes "high") 100 order;
}

abbrev stored : Result CommitError (Store × VerificationCommitResult) → Store
stored (ok done) = done.0
stored (err e) = kept_findings

abbrev told : Result CommitError (Store × VerificationCommitResult) → VerificationCommitResult
told (ok done) = done.1
told (err e) = record {
  verification_id = 0;
  finding_id = none;
  finding_created = false;
  finding_confirmed = false;
  human_conflict = false;
  evidence_id = none;
}

abbrev after_commit : Result CommitError (Store × VerificationCommitResult)
after_commit = commit_verification_outcome linked_world read_by_both kept_findings

commit_accepted : after_commit ≡ ok (stored after_commit, told after_commit)
unfolding commit_verification_outcome commit_finding existing_finding evidence_of with_evidence
    ◌>>=◌ as_bytes
commit_accepted = refl

commit_verification_outcome-Moved_example :
    IsMoved AssessmentVerdict.confirmed
      (finding 2 (codes "f2") FindingStatus.pending)
      (find_by_id 2 (stored after_commit).findings)
commit_verification_outcome-Moved_example =
    commit_verification_outcome-Moved linked_world read_by_both kept_findings kept_findings-IsKeyed
      (stored after_commit) (told after_commit) commit_accepted 2
      (finding 2 (codes "f2") FindingStatus.pending) refl

verified_commits_cite_example :
    commit_verification_outcome linked_world
      (record {
        check_id = 5;
        template_id = codes "readonly_idor";
        verifier_version = codes "1";
        outcome = verify reader (codes "readonly_idor") owned both false;
      })
      kept_findings
    ≢ err CommitError.no_evidence
verified_commits_cite_example =
    verified_commits_cite reader owned both false linked_world 5 (codes "readonly_idor") (codes "1")
      kept_findings
