-- ===== src/Ai/Validation.antt =====
-- src-tauri/src/ai/validation_calibrated.rs: what is kept of an analysis by the model, and with how
-- much confidence. serde_json, `str::to_lowercase` and the lookup of standard references in the
-- catalogue of knowledge/registry.rs are parameters; of errors the number is kept, and warnings and
-- notes are left out.
pub mod Calibrated
use rust_forge.Base.{
  ℕ, ◌+◌, Bool, true, false, not, ◌&&◌, ◌||◌, List, [], ◌∷◌, ◌++◌, map, any, take, length, min,
  Option, none, some, is_some, Result, ok, err, ◌>>=◌, ◌>>◌, guard, map_err, if◌then◌else◌, leb,
  ltb, ◌==◌,
}
use rust_forge.Ai.Json.{parse_llm_json}
use rust_forge.Text.{Text, codes, text_eq, one_of, trim, is_empty}

pub record Hypothesis : Type 0 where
  pub vuln_type : Text
  pub param : Text
  pub standard_references : List Text
  pub severity : Text
  pub confidence : ℕ
  pub reasoning : Text
  pub verify_steps : Text
  pub evidence_refs : List Text
  -- `grounding_status == "grounded"`
  pub is_grounded : Bool

pub record AnalysisResult : Type 0 where
  pub purpose : Text
  pub suspicious_params : List Text
  pub hypotheses : List Hypothesis
  pub summary : Text

abbrev pub max_hypotheses : ℕ
max_hypotheses = 4

abbrev pub max_suspicious_params : ℕ
max_suspicious_params = 32

abbrev pub max_evidence_refs : ℕ
max_evidence_refs = 8

abbrev pub max_standard_references : ℕ
max_standard_references = 8

abbrev pub error_if : Bool → ℕ
error_if true = 1
error_if false = 0

-- The errors of `require_string` on a text that is trimmed.
abbrev pub required_errors : ℕ → Text → ℕ
required_errors max value = error_if (is_empty value || not (leb (length value) max))

abbrev pub optional_errors : ℕ → Text → ℕ
optional_errors max value = error_if (not (leb (length value) max))

pub data EvidenceStrength : Type 0 where
  strong : EvidenceStrength
  moderate : EvidenceStrength
  weak : EvidenceStrength

unfoldable pub evidence_strength : Text → EvidenceStrength
evidence_strength reference =
    if one_of (codes "request.body" ∷ codes "response.body" ∷ []) reference
    then strong
    else if one_of
        (codes "request.headers"
          ∷ codes "response.headers"
          ∷ codes "response.status"
          ∷ codes "passive.rule_tags"
          ∷ [])
        reference
    then moderate
    else weak

abbrev pub is_strong : EvidenceStrength → Bool
is_strong strong = true
is_strong _ = false

abbrev pub is_moderate : EvidenceStrength → Bool
is_moderate moderate = true
is_moderate _ = false

pub data Severity : Type 0 where
  critical : Severity
  high : Severity
  medium : Severity
  low : Severity
  info : Severity

-- The arms of the matches on the severity.
unfoldable pub severity_of : Text → Option Severity
severity_of severity =
    if text_eq severity (codes "critical")
    then some critical
    else if text_eq severity (codes "high")
    then some high
    else if text_eq severity (codes "medium")
    then some medium
    else if text_eq severity (codes "low")
    then some low
    else if text_eq severity (codes "info")
    then some info
    else none

-- The caps, by whether there is only weak evidence, no strong evidence, and less than two pieces.
abbrev pub cap_of : Option Severity → (weak_only no_strong single : Bool) → Option ℕ
cap_of none weak_only no_strong single = none
cap_of (some critical) true no_strong single = some 45
cap_of (some critical) false true single = some 60
cap_of (some critical) false false true = some 80
cap_of (some critical) false false false = none
cap_of (some high) true no_strong single = some 45
cap_of (some high) false true single = some 70
cap_of (some high) false false true = some 85
cap_of (some high) false false false = none
cap_of (some medium) true no_strong single = some 45
cap_of (some medium) false true single = some 70
cap_of (some medium) false false single = none
cap_of (some low) true no_strong single = some 40
cap_of (some low) false no_strong single = none
cap_of (some info) true no_strong single = some 40
cap_of (some info) false no_strong single = none

abbrev pub capped : ℕ → Option ℕ → ℕ
capped confidence none = confidence
capped confidence (some cap) = if ltb cap confidence then cap else confidence

unfoldable pub calibrate_confidence : Text → ℕ → List EvidenceStrength → ℕ
calibrate_confidence severity confidence strengths =
    let no_strong = not (any is_strong strengths) in
    let weak_only = no_strong && not (any is_moderate strengths) in
    capped confidence (cap_of (severity_of severity) weak_only no_strong (ltb (length strengths) 2))

-- What the loops over the references have kept.
abbrev pub add_new : Text → List Text → List Text
add_new reference kept = if one_of kept reference then kept else kept ++ reference ∷ []

abbrev pub is_long : Text → Bool
is_long reference = not (leb (length reference) 64)

unfoldable pub requested_refs : List Text → List Text → List Text
requested_refs kept [] = kept
requested_refs kept (reference ∷ references) =
    let more = requested_refs (add_new reference kept) references in
    let same = requested_refs kept references in if is_long reference then same else more

abbrev pub long_refs : List Text → ℕ
long_refs [] = 0
long_refs (reference ∷ references) = error_if (is_long reference) + long_refs references

unfoldable pub valid_refs : List Text → List Text → List Text
valid_refs allowed [] = []
valid_refs allowed (reference ∷ references) =
    let rest = valid_refs allowed references in
    if one_of allowed reference then reference ∷ rest else rest

module _ (to_lowercase : Text → Text) (resolve : List Text → Option (List Text)) where
  abbrev pub trimmed : Hypothesis → Hypothesis
  trimmed h = record h {
    vuln_type = trim h.vuln_type;
    param = trim h.param;
    standard_references = take max_standard_references h.standard_references;
    reasoning = trim h.reasoning;
    verify_steps = trim h.verify_steps;
  }

  abbrev pub resolved : Option (List Text) → Hypothesis → Hypothesis
  resolved none h = h
  resolved (some references) h = record h { standard_references = references }

  abbrev pub lookup : Hypothesis → Option (List Text)
  lookup h = resolve (take max_standard_references h.standard_references)

  -- The errors that one hypothesis adds.
  unfoldable pub hypothesis_errors : Hypothesis → ℕ
  hypothesis_errors h =
      let t = trimmed h in
      required_errors 128 t.vuln_type
      + optional_errors 256 t.param
      + required_errors 4000 t.reasoning
      + required_errors 4000 t.verify_steps
      + error_if (not (is_some (severity_of h.severity)))
      + error_if (ltb 100 h.confidence)
      + error_if (not (is_some (lookup h)))
      + error_if (ltb max_evidence_refs (length h.evidence_refs))
      + long_refs h.evidence_refs

  -- Whether every reference that was asked for is allowed, and there is one.
  abbrev pub is_fully_grounded : (valid requested : List Text) → Bool
  is_fully_grounded valid requested = not (length valid == 0) && length valid == length requested

  unfoldable pub ground_hypothesis : List Text → Hypothesis → Hypothesis
  ground_hypothesis allowed h =
      let requested = requested_refs [] h.evidence_refs in
      let valid = valid_refs allowed requested in
      let kept = record (resolved (lookup h) (trimmed h)) { evidence_refs = valid } in
      if is_fully_grounded valid requested
      then record kept {
        is_grounded = true;
        confidence = calibrate_confidence h.severity h.confidence (map evidence_strength valid);
      }
      else record kept { is_grounded = false; confidence = min h.confidence 25 }

  -- The equality of the keys in `seen_hypotheses`.
  abbrev pub is_same_hypothesis : Hypothesis → Hypothesis → Bool
  is_same_hypothesis h k =
      text_eq (to_lowercase (trim h.vuln_type)) (to_lowercase (trim k.vuln_type))
      && text_eq (to_lowercase (trim h.param)) (to_lowercase (trim k.param))
      && text_eq h.severity k.severity

  -- The loop over the hypotheses, with those that were kept.
  unfoldable pub keep_hypotheses : List Text → List Hypothesis → List Hypothesis → List Hypothesis
  keep_hypotheses allowed seen [] = []
  keep_hypotheses allowed seen (h ∷ hypotheses) =
      let dropped = keep_hypotheses allowed seen hypotheses in
      let kept = ground_hypothesis allowed h ∷ keep_hypotheses allowed (h ∷ seen) hypotheses in
      if any (is_same_hypothesis h) seen then dropped else kept

  unfoldable pub keep_params : List Text → List Text → List Text
  keep_params seen [] = []
  keep_params seen (p ∷ params) =
      let dropped = keep_params seen params in
      let kept = p ∷ keep_params (to_lowercase p ∷ seen) params in
      if one_of seen (to_lowercase p) then dropped else kept

  abbrev pub sum_errors : {A : Type 0} → (A → ℕ) → List A → ℕ
  sum_errors f [] = 0
  sum_errors f (a ∷ rows) = f a + sum_errors f rows

  -- All errors, those of hypotheses that are merged included.
  unfoldable pub analysis_errors : AnalysisResult → ℕ
  analysis_errors result =
      required_errors 500 (trim result.purpose)
      + required_errors 4000 (trim result.summary)
      + error_if (ltb max_suspicious_params (length result.suspicious_params))
      + sum_errors (λ p. required_errors 128 (trim p)) result.suspicious_params
      + error_if (ltb max_hypotheses (length result.hypotheses))
      + sum_errors hypothesis_errors result.hypotheses

  -- What is kept of a result.
  unfoldable pub kept_result : List Text → AnalysisResult → AnalysisResult
  kept_result allowed result = record {
    purpose = trim result.purpose;
    suspicious_params = keep_params [] (map trim result.suspicious_params);
    hypotheses = keep_hypotheses allowed [] result.hypotheses;
    summary = trim result.summary;
  }

  -- An error is the number of errors that the report lists.
  unfoldable pub parse_and_validate :
      {E : Type 0} (from_str : List ℕ → Result E AnalysisResult)
      → Text
      → (allowed : List Text) → Result ℕ AnalysisResult
  parse_and_validate from_str raw allowed = do
    wire ← map_err (λ _. 1) (parse_llm_json from_str raw)
    guard (analysis_errors wire == 0) (analysis_errors wire)
    ok (kept_result allowed wire)
