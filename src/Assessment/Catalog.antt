-- ===== src/Assessment/Catalog.antt =====
-- src-tauri/src/assessment/catalog.rs: the registry of the tools and the searches in it.
pub mod Spec
pub mod Local
pub mod Probes
pub mod Recipes
use rust_forge.Base.{
  Bool, true, false, ◌&&◌, ◌||◌, List, [], ◌∷◌, Option, none, some, if◌then◌else◌,
}
use rust_forge.Text.{Text, text_eq}
use rust_forge.Assessment.Catalog.Spec.{ToolSpec, is_manual}
use rust_forge.Assessment.Catalog.Local.{
  security_headers_cookie, html_surface_inventory, static_route_inventory, openapi_inventory,
}
use rust_forge.Assessment.Catalog.Probes.{
  credentialed_cors, jwt_integrity, open_redirect, lazy_reflection, readonly_idor,
  options_capabilities, anonymous_authenticated_diff,
}
use rust_forge.Assessment.Catalog.Recipes.{
  manual_sqli_recipe, manual_ssrf_recipe, manual_xss_recipe, manual_business_logic_recipe,
}

-- `TOOL_SPECS`
abbrev pub tool_specs : List ToolSpec
tool_specs =
    security_headers_cookie ∷ credentialed_cors ∷ jwt_integrity ∷ open_redirect ∷ lazy_reflection
    ∷ readonly_idor ∷ html_surface_inventory ∷ static_route_inventory ∷ openapi_inventory
    ∷ options_capabilities ∷ anonymous_authenticated_diff ∷ manual_sqli_recipe ∷ manual_ssrf_recipe
    ∷ manual_xss_recipe ∷ manual_business_logic_recipe ∷ []

-- `iter().find(p)`
unfoldable pub find_tool : (ToolSpec → Bool) → List ToolSpec → Option ToolSpec
find_tool p [] = none
find_tool p (t ∷ ts) = if p t then some t else find_tool p ts

unfoldable pub template : Text → Option ToolSpec
template id = find_tool (λ (t : ToolSpec). text_eq t.id id && t.legacy_template) tool_specs

unfoldable pub tool : Text → Option ToolSpec
tool id = find_tool (λ (t : ToolSpec). text_eq t.id id) tool_specs

unfoldable pub keep_tools : (ToolSpec → Bool) → List ToolSpec → List ToolSpec
keep_tools p [] = []
keep_tools p (t ∷ ts) = let rest = keep_tools p ts in if p t then t ∷ rest else rest

unfoldable pub planner_tools : List ToolSpec
planner_tools = keep_tools (λ t. t.legacy_template) tool_specs

unfoldable pub mission_planner_tools : List ToolSpec
mission_planner_tools = keep_tools (λ t. t.legacy_template || is_manual t.execution_kind) tool_specs
