-- ===== src/Assessment/Planner/Parsed.antt =====
-- src-tauri/src/assessment/planner.rs: what a plan that is accepted looks like.
use rust_forge.Base.{
  ℕ, ◌≤◌, ◌≡◌, refl, Bool, true, false, not, List, [], ◌∷◌, any, length, All, Option, none, some,
  ok, guard, leb, leb→le, or-eq-false, Ensures, Ensures-ok, Ensures-bind, Ensures-guard,
  Ensures-mono, arith,
}
use rust_forge.Text.{Text, text_eq, one_of, trim, is_empty, is_control}
use rust_forge.Assessment.Planner.{
  PlannedCheck, byte_len, identity_modes, is_same_check, validate_token, validate_optional,
  validate_check, validate_checks, parse_plan, max_checks_per_round,
}

-- A text without spaces at its ends and without control characters, of 1 to `max` bytes.
pub record IsToken (max : ℕ) (value : Text) : Type 0 where
  pub trimmed : text_eq (trim value) value ≡ true
  pub present : is_empty value ≡ false
  pub short : byte_len value ≤ max
  pub printable : any is_control value ≡ false

abbrev pub IsOptionalToken : ℕ → Option Text → Type 0
IsOptionalToken max none = Unit
IsOptionalToken max (some value) = IsToken max value

pub record IsPlannable (check : PlannedCheck) : Type 0 where
  pub template : IsToken 120 check.template_id
  pub endpoint : IsToken 80 check.endpoint_id
  pub parameter : IsOptionalToken 240 check.parameter_name
  pub workstream : IsOptionalToken 120 check.workstream_key
  pub identity : one_of identity_modes check.identity_mode ≡ true
  pub rationale :
      (is_empty (trim check.rationale) ≡ false)
      × (byte_len check.rationale ≤ 1000)
      × (any is_control check.rationale ≡ false)
  pub signal :
      (byte_len check.expected_signal ≤ 1000) × (any is_control check.expected_signal ≡ false)

-- No check repeats the template, endpoint, parameter and identity of an earlier one.
abbrev pub Distinct : List PlannedCheck → Type 0
Distinct [] = Unit
Distinct (c ∷ checks) = All (λ d. is_same_check d c ≡ false) checks × Distinct checks

guard-ok : {E : Type 0} (t : Bool) (e : E) → guard t e ≡ ok tt → t ≡ true
guard-ok true e h = refl
guard-ok false e h = cc

within : (n max : ℕ) → not (leb n max) ≡ false → n ≤ max
within n max h = leb→le n max (ground arith)

token : (value field : Text) (max : ℕ) → validate_token value field max ≡ ok tt → IsToken max value
unfolding validate_token
token value field max h =
    let passed = guard-ok _ _ h in
    record {
      trimmed = ground arith;
      present = ground arith;
      short = within (byte_len value) max (ground arith);
      printable = ground arith;
    }

optional_token :
    (value : Option Text) (field : Text) (max : ℕ)
    → validate_optional value field max ≡ ok tt
    → IsOptionalToken max value
optional_token none field max h = tt
optional_token (some value) field max h = token value field max h

validate_check-IsPlannable :
    (check : PlannedCheck) → Ensures (λ _. IsPlannable check) (validate_check check)
unfolding validate_check
validate_check-IsPlannable check = Ensures-bind _ _ λ _ a. Ensures-bind _ _ λ _ b.
    Ensures-bind _ _ λ _ c. Ensures-bind _ _ λ _ d. Ensures-guard _ _ _ λ mode.
      Ensures-guard _ _ _ λ rationale. record {
        at = λ _ h.
            let signal = guard-ok _ _ h in
            record {
              template = token check.template_id _ 120 a;
              endpoint = token check.endpoint_id _ 80 b;
              parameter = optional_token check.parameter_name _ 240 c;
              workstream = optional_token check.workstream_key _ 120 d;
              identity = mode;
              rationale = (
                ground arith,
                within (byte_len check.rationale) 1000 (ground arith),
                ground arith,
              );
              signal = (within (byte_len check.expected_signal) 1000 (ground arith), ground arith);
            };
      }

-- What the loop finds of the checks that are left, after those it has seen.
abbrev IsFresh : List PlannedCheck → List PlannedCheck → Type 0
IsFresh seen checks =
    All IsPlannable checks × All (λ d. any (is_same_check d) seen ≡ false) checks × Distinct checks

split_seen :
    (c : PlannedCheck) (seen checks : List PlannedCheck)
    → All (λ d. any (is_same_check d) (c ∷ seen) ≡ false) checks
    → All (λ d. is_same_check d c ≡ false) checks
      × All (λ d. any (is_same_check d) seen ≡ false) checks
split_seen c seen [] h = (tt, tt)
split_seen c seen (d ∷ checks) h =
    let parts = or-eq-false (is_same_check d c) (any (is_same_check d) seen) h.0 in
    let rest = split_seen c seen checks h.1 in ((parts.0, rest.0), (parts.1, rest.1))

validate_checks-IsFresh :
    (seen checks : List PlannedCheck)
    → Ensures (λ _. IsFresh seen checks) (validate_checks seen checks)
unfolding validate_checks
validate_checks-IsFresh seen [] = Ensures-ok tt (tt, tt, tt)
validate_checks-IsFresh seen (c ∷ checks) = Ensures-bind _ _ λ _ valid. Ensures-guard _ _ _ λ fresh.
    Ensures-mono
      (λ _ rest.
        let parts = split_seen c seen checks rest.1 in
        (
          ((validate_check-IsPlannable c).at tt valid, rest.0),
          (ground arith, parts.1),
          (parts.0, rest.2),
        ))
      (validate_checks-IsFresh (c ∷ seen) checks)

pub record IsAccepted (checks : List PlannedCheck) : Type 0 where
  pub few : length checks ≤ max_checks_per_round
  pub plannable : All IsPlannable checks
  pub distinct : Distinct checks

accepted :
    (from_str : Text → Option (List PlannedCheck)) (raw : Text)
    → Ensures IsAccepted (parse_plan from_str raw)
unfolding parse_plan
accepted from_str raw = Ensures-guard _ _ _ λ _. Ensures-bind _ _ λ checks _.
    Ensures-guard _ _ _ λ few. Ensures-bind _ _ λ _ valid.
      let fresh = (validate_checks-IsFresh [] checks).at tt valid in
      Ensures-ok checks (record {
        few = leb→le (length checks) max_checks_per_round few;
        plannable = fresh.0;
        distinct = fresh.2;
      })

-- A plan that `parse_plan` accepts has at most twelve checks, each of which has well-formed ids, an
-- identity mode of the four, and a rationale and a signal within their bounds, and no two of which
-- agree in template, endpoint, parameter and identity.
pub parse_plan-IsAccepted :
    (from_str : Text → Option (List PlannedCheck)) (raw : Text) (checks : List PlannedCheck)
    → parse_plan from_str raw ≡ ok checks
    → IsAccepted checks
parse_plan-IsAccepted from_str raw checks h = (accepted from_str raw).at checks h
