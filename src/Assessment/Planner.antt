-- ===== src/Assessment/Planner.antt =====
-- src-tauri/src/assessment/planner.rs: what a plan of the model has to be before it is used. The
-- parser of its JSON is serde_json's and a parameter here.
pub mod Parsed
use rust_forge.Base.{
  ℕ, ◌*◌, Bool, true, false, not, ◌&&◌, ◌||◌, List, [], ◌∷◌, ◌++◌, any, length, Option, none, some,
  Result, ok, err, ◌>>=◌, ◌>>◌, guard, ok_or, leb, if◌then◌else◌,
}
use rust_forge.Text.{
  Text, codes, text_eq, one_of, trim, is_empty, is_control, strip_prefix, strip_suffix,
}
use rust_forge.Text.Utf8.{as_bytes}

pub record PlannedCheck : Type 0 where
  pub template_id : Text
  pub endpoint_id : Text
  pub parameter_name : Option Text
  pub identity_mode : Text
  pub rationale : Text
  pub workstream_key : Option Text
  pub expected_signal : Text

pub data PlanError : Type 0 where
  output_too_large : PlanError
  invalid_json : PlanError
  too_many_checks : PlanError
  -- with the name of the field
  malformed_token : Text → PlanError
  unknown_identity_mode : PlanError
  malformed_rationale : PlanError
  malformed_signal : PlanError
  duplicate_check : PlanError

abbrev pub max_checks_per_round : ℕ
max_checks_per_round = 12

-- `value.len()`
abbrev pub byte_len : Text → ℕ
byte_len value = length (as_bytes value)

unfoldable pub validate_token : Text → Text → ℕ → Result PlanError (Unit {0})
validate_token value field max =
    guard
      (not (
        not (text_eq (trim value) value)
        || is_empty value
        || not (leb (byte_len value) max)
        || any is_control value))
      (malformed_token field)

abbrev pub validate_optional : Option Text → Text → ℕ → Result PlanError (Unit {0})
validate_optional none field max = ok tt
validate_optional (some value) field max = validate_token value field max

abbrev pub identity_modes : List Text
identity_modes = codes "anonymous" ∷ codes "a" ∷ codes "b" ∷ codes "a_vs_b" ∷ []

abbrev pub option_eq : Option Text → Option Text → Bool
option_eq none none = true
option_eq none (some _) = false
option_eq (some _) none = false
option_eq (some a) (some b) = text_eq a b

-- The equality of the keys in `duplicates`.
unfoldable pub is_same_check : PlannedCheck → PlannedCheck → Bool
is_same_check c d =
    text_eq c.template_id d.template_id
    && text_eq c.endpoint_id d.endpoint_id
    && option_eq c.parameter_name d.parameter_name
    && text_eq c.identity_mode d.identity_mode

-- The body of the loop, without its last test.
unfoldable pub validate_check : PlannedCheck → Result PlanError (Unit {0})
validate_check check = do
  validate_token check.template_id (codes "template_id") 120
  validate_token check.endpoint_id (codes "endpoint_id") 80
  validate_optional check.parameter_name (codes "parameter_name") 240
  validate_optional check.workstream_key (codes "workstream_key") 120
  guard (one_of identity_modes check.identity_mode) unknown_identity_mode
  guard
      (not (
        is_empty (trim check.rationale)
        || not (leb (byte_len check.rationale) 1000)
        || any is_control check.rationale))
      malformed_rationale
  guard
      (not
        (not (leb (byte_len check.expected_signal) 1000) || any is_control check.expected_signal))
      malformed_signal

-- The loop, with the checks that it has seen.
unfoldable pub validate_checks : List PlannedCheck → List PlannedCheck → Result PlanError (Unit {0})
validate_checks seen [] = ok tt
validate_checks seen (check ∷ checks) = do
  validate_check check
  guard (not (any (is_same_check check) seen)) duplicate_check
  validate_checks (check ∷ seen) checks

abbrev pub inside_fence : Text → Text
inside_fence inner = elim (strip_suffix (codes "```") inner) [
  | none ↦ trim inner
  | some body ↦ trim body
]

unfoldable pub strip_json_fence : Text → Text
strip_json_fence raw =
    let trimmed = trim raw in
    elim (strip_prefix (codes "```json") trimmed) [
      | some inner ↦ inside_fence inner
      | none ↦ elim (strip_prefix (codes "```") trimmed) [
        | some inner ↦ inside_fence inner
        | none ↦ trimmed
      ]
    ]

-- `from_str` is serde_json's reading of the `checks` of an envelope.
unfoldable pub parse_plan :
    (from_str : Text → Option (List PlannedCheck)) → Text → Result PlanError (List PlannedCheck)
parse_plan from_str raw = do
  guard (leb (byte_len raw) (64 * 1024)) output_too_large
  checks ← ok_or (from_str (strip_json_fence raw)) invalid_json
  guard (leb (length checks) max_checks_per_round) too_many_checks
  validate_checks [] checks
  ok checks
