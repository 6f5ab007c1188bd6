-- ===== src/Assessment/Catalog/Spec.antt =====
-- src-tauri/src/assessment/catalog.rs: what the registry says of a tool, less the names, descriptions
-- and parameter schemas that are shown to a person or to the model.
use rust_forge.Base.{ℕ, Bool, true, false, List}
use rust_forge.Text.{Text}

pub data ExecutionKind : Type 0 where
  observe : ExecutionKind
  safe_probe : ExecutionKind
  manual_recipe : ExecutionKind

pub data RiskLevel : Type 0 where
  local : RiskLevel
  low : RiskLevel
  guarded : RiskLevel
  manual : RiskLevel

pub data Permission : Type 0 where
  disabled : Permission
  ask : Permission
  execute : Permission

pub record ToolSpec : Type 0 where
  pub id : Text
  pub version : Text
  pub execution_kind : ExecutionKind
  pub risk_level : RiskLevel
  pub verifier_id : Text
  pub verifier_version : Text
  pub allowed_identity_modes : List Text
  pub requires_parameter : Bool
  pub request_cost : ℕ
  pub default_permission : Permission
  pub can_auto_confirm : Bool
  pub legacy_template : Bool

abbrev pub is_observe : ExecutionKind → Bool
is_observe observe = true
is_observe _ = false

abbrev pub is_manual : ExecutionKind → Bool
is_manual manual_recipe = true
is_manual _ = false

abbrev pub is_low : RiskLevel → Bool
is_low low = true
is_low _ = false
