-- ===== src/Ai/Validation/Calibrated.antt =====
-- src-tauri/src/ai/validation_calibrated.rs: the bounds on what is kept of an analysis.
use rust_forge.Base.{
  inl, inr, ℕ, ◌≡◌, ◌≤◌, ◌+◌, suc, refl, ap, Bool, true, false, not, ◌&&◌, List, [], ◌∷◌, map, any,
  length, min, All, Option, none, some, is_some, Result, ok, ltb, Bool-cases, Ensures, Ensures-ok,
  Ensures-bind, Ensures-guard, arith,
}
use rust_forge.Text.{Text, one_of}
use rust_forge.Ai.Validation.{
  Hypothesis, AnalysisResult, EvidenceStrength, Severity, critical, high, medium, low, info,
  evidence_strength, is_strong, is_moderate, severity_of, cap_of, capped, calibrate_confidence,
  valid_refs, requested_refs, resolved, trimmed, lookup, hypothesis_errors, is_fully_grounded,
  ground_hypothesis, is_same_hypothesis, keep_hypotheses, sum_errors, analysis_errors, kept_result,
  parse_and_validate, max_hypotheses, error_if,
}

-- The references name text of a body.
abbrev pub has_body : List Text → Bool
has_body references = any is_strong (map evidence_strength references)

abbrev pub has_headers : List Text → Bool
has_headers references = any is_moderate (map evidence_strength references)

pub record IsCalibratedAt (allowed references : List Text) (severity : Option Severity)
    (confidence : ℕ) (grounded : Bool) : Type 0 where
  pub allowed_only : All (λ r. one_of allowed r ≡ true) references
  pub bounded : confidence ≤ 100
  pub ungrounded : grounded ≡ false → confidence ≤ 25
  pub indirect : has_body references ≡ false → has_headers references ≡ false → confidence ≤ 45
  pub bodiless : severity ≡ some critical → has_body references ≡ false → confidence ≤ 60
  pub single : severity ≡ some critical → length references ≤ 1 → confidence ≤ 80

abbrev pub IsCalibrated : List Text → Hypothesis → Type 0
IsCalibrated allowed h =
    IsCalibratedAt allowed h.evidence_refs (severity_of h.severity) h.confidence h.is_grounded

valid_refs-allowed :
    (allowed references : List Text)
    → All (λ r. one_of allowed r ≡ true) (valid_refs allowed references)
unfolding valid_refs
valid_refs-allowed allowed [] = tt
valid_refs-allowed allowed (r ∷ references) = elim (Bool-cases (one_of allowed r)) [
  | inl in_list ↦ rw in_list (in_list, valid_refs-allowed allowed references)
  | inr other ↦ rw other (valid_refs-allowed allowed references)
]

capped-low : (confidence cap : ℕ) → capped confidence (some cap) ≤ cap
capped-low confidence cap = ground arith

capped-less : (confidence : ℕ) (cap : Option ℕ) → capped confidence cap ≤ confidence
capped-less confidence none = ground arith
capped-less confidence (some cap) = ground arith

cap-weak :
    (severity : Severity) (no_strong single : Bool) (confidence : ℕ)
    → capped confidence (cap_of (some severity) true no_strong single) ≤ 45
cap-weak critical n s confidence = capped-low confidence 45
cap-weak high n s confidence = capped-low confidence 45
cap-weak medium n s confidence = capped-low confidence 45
cap-weak low n s confidence = ground (arith, capped-low confidence 40)
cap-weak info n s confidence = ground (arith, capped-low confidence 40)

cap-bodiless :
    (weak single : Bool) (confidence : ℕ)
    → capped confidence (cap_of (some critical) weak true single) ≤ 60
cap-bodiless true s confidence = ground (arith, capped-low confidence 45)
cap-bodiless false s confidence = capped-low confidence 60

cap-single :
    (weak no_strong : Bool) (confidence : ℕ)
    → capped confidence (cap_of (some critical) weak no_strong true) ≤ 80
cap-single true n confidence = ground (arith, capped-low confidence 45)
cap-single false true confidence = ground (arith, capped-low confidence 60)
cap-single false false confidence = capped-low confidence 80

length-map : {A B : Type 0} (f : A → B) (xs : List A) → length (map f xs) ≡ length xs
length-map f [] = refl
length-map f (x ∷ xs) = ap suc (length-map f xs)

calibrated-weak :
    (name : Text) (severity : Severity) (confidence : ℕ) (strengths : List EvidenceStrength)
    → severity_of name ≡ some severity
    → any is_strong strengths ≡ false
    → any is_moderate strengths ≡ false
    → calibrate_confidence name confidence strengths ≤ 45
unfolding calibrate_confidence
calibrated-weak name severity confidence strengths known no_body no_headers =
    rw known
      (rw no_body (rw no_headers (cap-weak severity true (ltb (length strengths) 2) confidence)))

calibrated-bodiless :
    (name : Text) (confidence : ℕ) (strengths : List EvidenceStrength)
    → severity_of name ≡ some critical
    → any is_strong strengths ≡ false
    → calibrate_confidence name confidence strengths ≤ 60
unfolding calibrate_confidence
calibrated-bodiless name confidence strengths known no_body = rw known (
    rw no_body
      (cap-bodiless (not (any is_moderate strengths)) (ltb (length strengths) 2) confidence))

calibrated-single :
    (name : Text) (confidence : ℕ) (strengths : List EvidenceStrength)
    → severity_of name ≡ some critical
    → ltb (length strengths) 2 ≡ true
    → calibrate_confidence name confidence strengths ≤ 80
unfolding calibrate_confidence
calibrated-single name confidence strengths known alone =
    let no_strong = not (any is_strong strengths) in
    rw known
      (rw alone (cap-single (no_strong && not (any is_moderate strengths)) no_strong confidence))

calibrated-less :
    (name : Text) (confidence : ℕ) (strengths : List EvidenceStrength)
    → calibrate_confidence name confidence strengths ≤ confidence
unfolding calibrate_confidence
calibrated-less name confidence strengths = capped-less confidence _

-- A hypothesis without errors.
abbrev IsWellFormed : Hypothesis → Type 0
IsWellFormed h = (h.confidence ≤ 100) × ((s : Severity) × (severity_of h.severity ≡ some s))

grounded-Calibrated :
    (allowed : List Text) (h : Hypothesis)
    → IsWellFormed h
    → (references : List Text) → All (λ r. one_of allowed r ≡ true) references
    → IsCalibratedAt allowed references
        (severity_of h.severity)
        (calibrate_confidence h.severity h.confidence (map evidence_strength references))
        true
grounded-Calibrated allowed h (fits, (severity, known)) references only =
    let strengths = map evidence_strength references in
    let size : length strengths ≡ length references = length-map evidence_strength references in
    record {
      allowed_only = only;
      bounded = ground (arith, calibrated-less h.severity h.confidence strengths, fits);
      ungrounded = λ e. cc;
      indirect = λ b m. calibrated-weak h.severity severity h.confidence strengths known b m;
      bodiless = λ c b. calibrated-bodiless h.severity h.confidence strengths c b;
      single = λ c one.
          calibrated-single h.severity h.confidence strengths c (ground (arith, size, one));
    }

ungrounded-Calibrated :
    (allowed : List Text) (severity : Option Severity) (confidence : ℕ) (references : List Text)
    → All (λ r. one_of allowed r ≡ true) references
    → IsCalibratedAt allowed references severity (min confidence 25) false
ungrounded-Calibrated allowed severity confidence references only =
    let low_enough : min confidence 25 ≤ 25 = omega arith in
    record {
      allowed_only = only;
      bounded = omega arith;
      ungrounded = λ _. low_enough;
      indirect = λ _ _. omega arith;
      bodiless = λ _ _. omega arith;
      single = λ _ _. omega arith;
    }

no_error : (t : Bool) → error_if t ≡ 0 → t ≡ false
no_error true h = ground arith
no_error false h = refl

middle_zero : (a b c d e f g h i : ℕ) → a + b + c + d + e + f + g + h + i ≡ 0 → (e ≡ 0) × (f ≡ 0)
middle_zero a b c d e f g h i none_found = (omega arith, omega arith)

is_some-cases : {A : Type 0} (o : Option A) → not (is_some o) ≡ false → (a : A) × (o ≡ some a)
is_some-cases none h = cc
is_some-cases (some a) h = (a, refl)

module _ (to_lowercase : Text → Text) (resolve : List Text → Option (List Text)) where
  resolved-severity :
      (found : Option (List Text)) (h : Hypothesis)
      → (resolved to_lowercase resolve found h).severity ≡ h.severity
  resolved-severity none h = refl
  resolved-severity (some references) h = refl

  ground_hypothesis-Calibrated :
      (allowed : List Text) (h : Hypothesis)
      → IsWellFormed h
      → IsCalibrated allowed (ground_hypothesis to_lowercase resolve allowed h)
  unfolding ground_hypothesis
  ground_hypothesis-Calibrated allowed h well =
      let requested = requested_refs [] h.evidence_refs in
      let valid = valid_refs allowed requested in
      let only = valid_refs-allowed allowed requested in
      let same =
        resolved-severity (lookup to_lowercase resolve h) (trimmed to_lowercase resolve h) in
      elim (Bool-cases (is_fully_grounded to_lowercase resolve valid requested)) [
        | inl full ↦ rw full (rw same (grounded-Calibrated allowed h well valid only))
        | inr part ↦ rw part (ungrounded-Calibrated allowed _ h.confidence valid only)
      ]

  hypothesis_errors-IsWellFormed :
      (h : Hypothesis) → hypothesis_errors to_lowercase resolve h ≡ 0 → IsWellFormed h
  unfolding hypothesis_errors
  hypothesis_errors-IsWellFormed h none_found =
      let zeros = middle_zero _ _ _ _ _ _ _ _ _ none_found in
      let wide = no_error (ltb 100 h.confidence) zeros.1 in
      (
        ground arith,
        is_some-cases (severity_of h.severity)
            (no_error (not (is_some (severity_of h.severity))) zeros.0),
      )

  sum_errors-IsWellFormed :
      (hypotheses : List Hypothesis)
      → sum_errors to_lowercase resolve (hypothesis_errors to_lowercase resolve) hypotheses ≡ 0
      → All IsWellFormed hypotheses
  sum_errors-IsWellFormed [] none_found = tt
  sum_errors-IsWellFormed (h ∷ hypotheses) none_found = (
    hypothesis_errors-IsWellFormed h (omega arith),
    sum_errors-IsWellFormed hypotheses (omega arith),
  )

  kept-Calibrated :
      (allowed : List Text) (seen hypotheses : List Hypothesis)
      → All IsWellFormed hypotheses
      → All (IsCalibrated allowed) (keep_hypotheses to_lowercase resolve allowed seen hypotheses)
        × (length (keep_hypotheses to_lowercase resolve allowed seen hypotheses)
            ≤ length hypotheses)
  unfolding keep_hypotheses
  kept-Calibrated allowed seen [] well = (tt, omega arith)
  kept-Calibrated allowed seen (h ∷ hypotheses) (first, well) =
      let dropped = kept-Calibrated allowed seen hypotheses well in
      let kept = kept-Calibrated allowed (h ∷ seen) hypotheses well in
      elim (Bool-cases (any (is_same_hypothesis to_lowercase resolve h) seen)) [
        | inl again ↦ rw again (dropped.0, omega (arith, dropped.1))
        | inr new ↦
            rw new ((ground_hypothesis-Calibrated allowed h first, kept.0), omega (arith, kept.1))
      ]

  six_zeros : (a b c d e f : ℕ) → a + b + c + d + e + f ≡ 0 → (e ≡ 0) × (f ≡ 0)
  six_zeros a b c d e f h = (omega arith, omega arith)

  validated :
      {E : Type 0} (from_str : List ℕ → Result E AnalysisResult) (raw : Text) (allowed : List Text)
      → Ensures
          (λ result.
            (length result.hypotheses ≤ max_hypotheses)
            × All (IsCalibrated allowed) result.hypotheses)
          (parse_and_validate to_lowercase resolve from_str raw allowed)
  unfolding parse_and_validate analysis_errors kept_result
  validated from_str raw allowed = Ensures-bind _ _ λ wire _. Ensures-guard _ _ _ λ free.
      let total : analysis_errors to_lowercase resolve wire ≡ 0 = ground arith in
      let zeros = six_zeros _ _ _ _ _ _ total in
      let few = no_error (ltb max_hypotheses (length wire.hypotheses)) zeros.0 in
      let kept =
        kept-Calibrated allowed [] wire.hypotheses
          (sum_errors-IsWellFormed wire.hypotheses zeros.1) in
      Ensures-ok _ (ground (arith, few, kept.1), kept.0)

  -- An analysis that is accepted keeps at most four hypotheses. Each keeps only references that were
  -- allowed; its confidence is at most 100, at most 25 when it is not grounded, at most 45 when it
  -- names neither a body nor headers, a status or tags; and for a critical one at most 60 when it names
  -- no body and at most 80 when it names a single reference.
  pub parse_and_validate-IsCalibrated :
      {E : Type 0} (from_str : List ℕ → Result E AnalysisResult) (raw : Text) (allowed : List Text)
      (result : AnalysisResult)
      → parse_and_validate to_lowercase resolve from_str raw allowed ≡ ok result
      → (length result.hypotheses ≤ max_hypotheses) × All (IsCalibrated allowed) result.hypotheses
  parse_and_validate-IsCalibrated from_str raw allowed result h =
      (validated from_str raw allowed).at result h
