-- ===== src/Assessment/Catalog/Recipes.antt =====
-- src-tauri/src/assessment/catalog.rs: the recipes that a person follows.
use rust_forge.Base.{true, false, [], ◌∷◌}
use rust_forge.Text.{codes}
use rust_forge.Assessment.Catalog.Spec.{ToolSpec, manual_recipe, manual, ask}

abbrev pub manual_sqli_recipe : ToolSpec
manual_sqli_recipe = record {
  id = codes "manual_sqli_recipe";
  version = codes "1.0.0";
  execution_kind = manual_recipe;
  risk_level = manual;
  verifier_id = codes "human_evidence_review";
  verifier_version = codes "1.0.0";
  allowed_identity_modes = codes "anonymous" ∷ codes "a" ∷ codes "b" ∷ [];
  requires_parameter = true;
  request_cost = 0;
  default_permission = ask;
  can_auto_confirm = false;
  legacy_template = false;
}

abbrev pub manual_ssrf_recipe : ToolSpec
manual_ssrf_recipe = record {
  id = codes "manual_ssrf_recipe";
  version = codes "1.0.0";
  execution_kind = manual_recipe;
  risk_level = manual;
  verifier_id = codes "human_evidence_review";
  verifier_version = codes "1.0.0";
  allowed_identity_modes = codes "anonymous" ∷ codes "a" ∷ codes "b" ∷ [];
  requires_parameter = true;
  request_cost = 0;
  default_permission = ask;
  can_auto_confirm = false;
  legacy_template = false;
}

abbrev pub manual_xss_recipe : ToolSpec
manual_xss_recipe = record {
  id = codes "manual_xss_recipe";
  version = codes "1.0.0";
  execution_kind = manual_recipe;
  risk_level = manual;
  verifier_id = codes "human_evidence_review";
  verifier_version = codes "1.0.0";
  allowed_identity_modes = codes "anonymous" ∷ codes "a" ∷ codes "b" ∷ [];
  requires_parameter = true;
  request_cost = 0;
  default_permission = ask;
  can_auto_confirm = false;
  legacy_template = false;
}

abbrev pub manual_business_logic_recipe : ToolSpec
manual_business_logic_recipe = record {
  id = codes "manual_business_logic_recipe";
  version = codes "1.0.0";
  execution_kind = manual_recipe;
  risk_level = manual;
  verifier_id = codes "human_evidence_review";
  verifier_version = codes "1.0.0";
  allowed_identity_modes = codes "anonymous" ∷ codes "a" ∷ codes "b" ∷ codes "a_vs_b" ∷ [];
  requires_parameter = false;
  request_cost = 0;
  default_permission = ask;
  can_auto_confirm = false;
  legacy_template = false;
}
