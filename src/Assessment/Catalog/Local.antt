-- ===== src/Assessment/Catalog/Local.antt =====
-- src-tauri/src/assessment/catalog.rs: the tools that only observe responses.
use rust_forge.Base.{true, false, [], ◌∷◌}
use rust_forge.Text.{codes}
use rust_forge.Assessment.Catalog.Spec.{ToolSpec, observe, local, execute}

abbrev pub security_headers_cookie : ToolSpec
security_headers_cookie = record {
  id = codes "security_headers_cookie";
  version = codes "2.0.0";
  execution_kind = observe;
  risk_level = local;
  verifier_id = codes "security_headers_cookie";
  verifier_version = codes "2.0.0";
  allowed_identity_modes = codes "anonymous" ∷ codes "a" ∷ codes "b" ∷ [];
  requires_parameter = false;
  request_cost = 0;
  default_permission = execute;
  can_auto_confirm = true;
  legacy_template = true;
}

abbrev pub html_surface_inventory : ToolSpec
html_surface_inventory = record {
  id = codes "html_surface_inventory";
  version = codes "1.0.0";
  execution_kind = observe;
  risk_level = local;
  verifier_id = codes "inventory_only";
  verifier_version = codes "1.0.0";
  allowed_identity_modes = codes "anonymous" ∷ codes "a" ∷ codes "b" ∷ [];
  requires_parameter = false;
  request_cost = 0;
  default_permission = execute;
  can_auto_confirm = false;
  legacy_template = false;
}

abbrev pub static_route_inventory : ToolSpec
static_route_inventory = record {
  id = codes "static_route_inventory";
  version = codes "1.0.0";
  execution_kind = observe;
  risk_level = local;
  verifier_id = codes "inventory_only";
  verifier_version = codes "1.0.0";
  allowed_identity_modes = codes "anonymous" ∷ codes "a" ∷ codes "b" ∷ [];
  requires_parameter = false;
  request_cost = 0;
  default_permission = execute;
  can_auto_confirm = false;
  legacy_template = false;
}

abbrev pub openapi_inventory : ToolSpec
openapi_inventory = record {
  id = codes "openapi_inventory";
  version = codes "1.0.0";
  execution_kind = observe;
  risk_level = local;
  verifier_id = codes "inventory_only";
  verifier_version = codes "1.0.0";
  allowed_identity_modes = codes "anonymous" ∷ [];
  requires_parameter = false;
  request_cost = 0;
  default_permission = execute;
  can_auto_confirm = false;
  legacy_template = false;
}
