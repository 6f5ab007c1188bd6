-- ===== src/Assessment/Catalog/Probes.antt =====
-- src-tauri/src/assessment/catalog.rs: the tools that send a bounded probe.
use rust_forge.Base.{true, false, [], ◌∷◌}
use rust_forge.Text.{codes}
use rust_forge.Assessment.Catalog.Spec.{ToolSpec, safe_probe, low, guarded, ask, execute}

abbrev pub credentialed_cors : ToolSpec
credentialed_cors = record {
  id = codes "credentialed_cors";
  version = codes "1.2.0";
  execution_kind = safe_probe;
  risk_level = guarded;
  verifier_id = codes "credentialed_cors";
  verifier_version = codes "1.2.0";
  allowed_identity_modes = codes "a" ∷ codes "b" ∷ [];
  requires_parameter = false;
  request_cost = 2;
  default_permission = ask;
  can_auto_confirm = true;
  legacy_template = true;
}

abbrev pub jwt_integrity : ToolSpec
jwt_integrity = record {
  id = codes "jwt_integrity";
  version = codes "1.1.0";
  execution_kind = safe_probe;
  risk_level = guarded;
  verifier_id = codes "jwt_integrity";
  verifier_version = codes "1.1.0";
  allowed_identity_modes = codes "a" ∷ codes "b" ∷ [];
  requires_parameter = false;
  request_cost = 4;
  default_permission = ask;
  can_auto_confirm = true;
  legacy_template = true;
}

abbrev pub open_redirect : ToolSpec
open_redirect = record {
  id = codes "open_redirect";
  version = codes "1.1.0";
  execution_kind = safe_probe;
  risk_level = guarded;
  verifier_id = codes "open_redirect";
  verifier_version = codes "1.1.0";
  allowed_identity_modes = codes "anonymous" ∷ codes "a" ∷ codes "b" ∷ [];
  requires_parameter = true;
  request_cost = 1;
  default_permission = ask;
  can_auto_confirm = true;
  legacy_template = true;
}

abbrev pub lazy_reflection : ToolSpec
lazy_reflection = record {
  id = codes "lazy_reflection";
  version = codes "1.1.0";
  execution_kind = safe_probe;
  risk_level = guarded;
  verifier_id = codes "lazy_reflection";
  verifier_version = codes "1.1.0";
  allowed_identity_modes = codes "anonymous" ∷ codes "a" ∷ codes "b" ∷ [];
  requires_parameter = true;
  request_cost = 1;
  default_permission = ask;
  can_auto_confirm = false;
  legacy_template = true;
}

abbrev pub readonly_idor : ToolSpec
readonly_idor = record {
  id = codes "readonly_idor";
  version = codes "1.1.0";
  execution_kind = safe_probe;
  risk_level = guarded;
  verifier_id = codes "readonly_idor";
  verifier_version = codes "1.1.0";
  allowed_identity_modes = codes "a_vs_b" ∷ [];
  requires_parameter = false;
  request_cost = 2;
  default_permission = ask;
  can_auto_confirm = true;
  legacy_template = true;
}

abbrev pub options_capabilities : ToolSpec
options_capabilities = record {
  id = codes "options_capabilities";
  version = codes "1.0.0";
  execution_kind = safe_probe;
  risk_level = low;
  verifier_id = codes "options_capabilities";
  verifier_version = codes "1.0.0";
  allowed_identity_modes = codes "anonymous" ∷ codes "a" ∷ codes "b" ∷ [];
  requires_parameter = false;
  request_cost = 1;
  default_permission = execute;
  can_auto_confirm = false;
  legacy_template = true;
}

abbrev pub anonymous_authenticated_diff : ToolSpec
anonymous_authenticated_diff = record {
  id = codes "anonymous_authenticated_diff";
  version = codes "1.0.0";
  execution_kind = safe_probe;
  risk_level = guarded;
  verifier_id = codes "identity_visibility";
  verifier_version = codes "1.0.0";
  allowed_identity_modes = codes "a" ∷ codes "b" ∷ [];
  requires_parameter = false;
  request_cost = 2;
  default_permission = ask;
  can_auto_confirm = false;
  legacy_template = true;
}
