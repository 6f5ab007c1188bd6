-- ===== src/Assessment/Mission/Tools.antt =====
-- src-tauri/src/assessment/mission.rs: which tools a mission may use, under which permission, and
-- the actions made of them when the context is confirmed. The contents of `goal` are searched as
-- in the source, after `to_ascii_lowercase`.
use rust_forge.Base.{
  ℕ, suc, Bool, true, false, not, ◌&&◌, ◌||◌, List, [], ◌∷◌, ◌++◌, map, any, Option, none, some,
  is_some, if◌then◌else◌,
}
use rust_forge.Text.{Text, codes, text_eq, one_of, to_ascii_lowercase, contains_text}
use rust_forge.Assessment.Catalog.{tool_specs}
use rust_forge.Assessment.Catalog.Spec.{
  ToolSpec, ExecutionKind, Permission, disabled, ask, execute, safe_probe, is_observe, is_manual,
  is_low,
}
use rust_forge.Assessment.Mission.Status.{AutonomyMode, manual, smart, automatic}
use rust_forge.Assessment.Mission.Data.{
  Action, Mission, ToolPermission, not_required, pending, policy, awaiting_approval, queued,
  cancelled, is_open_before_context,
}

abbrev pub is_safe_probe : ExecutionKind → Bool
is_safe_probe safe_probe = true
is_safe_probe _ = false

-- The answer to an override: `match decision`.
abbrev pub overridden : ExecutionKind → Permission → Permission
overridden kind disabled = disabled
overridden kind ask = ask
overridden kind execute = if not (is_manual kind) then execute else ask

unfoldable pub effective_permission : AutonomyMode → ToolSpec → Option Permission → Permission
effective_permission mode tool (some decision) = overridden tool.execution_kind decision
effective_permission manual tool none = if is_observe tool.execution_kind then execute else ask
effective_permission smart tool none =
    if is_observe tool.execution_kind || is_safe_probe tool.execution_kind && is_low tool.risk_level
    then execute
    else ask
effective_permission automatic tool none = if is_manual tool.execution_kind then ask else execute

-- `overrides.get(id)`
unfoldable pub override_of : List ToolPermission → Text → Option Permission
override_of [] id = none
override_of (p ∷ ps) id = if text_eq p.tool_id id then some p.decision else override_of ps id

pub record MissionToolDescriptor : Type 0 where
  pub spec : ToolSpec
  pub effective_permission : Permission

abbrev pub is_disabled : Permission → Bool
is_disabled disabled = true
is_disabled _ = false

abbrev pub is_ask : Permission → Bool
is_ask ask = true
is_ask _ = false

unfoldable pub described : AutonomyMode → List ToolPermission → ToolSpec → MissionToolDescriptor
described mode overrides tool = record {
  spec = tool;
  effective_permission = effective_permission mode tool (override_of overrides tool.id);
}

-- The rows that `permission_state` hashes: those of all tools.
unfoldable pub permission_rows : AutonomyMode → List ToolPermission → List MissionToolDescriptor
permission_rows mode overrides = map (described mode overrides) tool_specs

unfoldable pub enabled : List MissionToolDescriptor → List MissionToolDescriptor
enabled [] = []
enabled (d ∷ ds) =
    let rest = enabled ds in if is_disabled d.effective_permission then rest else d ∷ rest

-- The tools that `permission_state` lists.
unfoldable pub permitted_tools : AutonomyMode → List ToolPermission → List MissionToolDescriptor
permitted_tools mode overrides = enabled (permission_rows mode overrides)

abbrev pub mentions : Text → List Text → Bool
mentions goal words = any (λ w. contains_text w goal) words

-- The words of the goal that make a manual recipe relevant.
unfoldable pub recipe_words : Text → List Text
recipe_words id =
    if text_eq id (codes "manual_sqli_recipe")
    then codes "sql" ∷ codes "注入" ∷ codes "全面" ∷ []
    else if text_eq id (codes "manual_ssrf_recipe")
    then codes "ssrf" ∷ codes "服务端请求" ∷ codes "全面" ∷ []
    else if text_eq id (codes "manual_xss_recipe")
    then codes "xss" ∷ codes "跨站" ∷ codes "全面" ∷ []
    else if text_eq id (codes "manual_business_logic_recipe")
    then codes "业务" ∷ codes "logic" ∷ codes "全面" ∷ []
    else []

unfoldable pub tool_relevant : Mission → MissionToolDescriptor → Bool
tool_relevant mission d =
    if text_eq d.spec.id (codes "openapi_inventory")
    then true
    else if one_of
          (codes "jwt_integrity"
            ∷ codes "readonly_idor"
            ∷ codes "anonymous_authenticated_diff"
            ∷ codes "credentialed_cors"
            ∷ [])
          d.spec.id
        && not (is_some mission.identity_a_profile_id)
        && not (is_some mission.identity_b_profile_id)
    then false
    else if not (is_manual d.spec.execution_kind)
    then true
    else mentions (to_ascii_lowercase mission.goal) (recipe_words d.spec.id)

unfoldable pub default_identity_mode : Mission → MissionToolDescriptor → Text
default_identity_mode mission d =
    if one_of d.spec.allowed_identity_modes (codes "a_vs_b")
      && is_some mission.identity_a_profile_id
      && is_some mission.identity_b_profile_id
    then codes "a_vs_b"
    else if one_of d.spec.allowed_identity_modes (codes "a")
        && is_some mission.identity_a_profile_id
    then codes "a"
    else if one_of d.spec.allowed_identity_modes (codes "b")
        && is_some mission.identity_b_profile_id
    then codes "b"
    else codes "anonymous"

unfoldable pub workstream_of : MissionToolDescriptor → Text
workstream_of d =
    if one_of
      (codes "security_headers_cookie"
        ∷ codes "html_surface_inventory"
        ∷ codes "static_route_inventory"
        ∷ codes "openapi_inventory"
        ∷ codes "options_capabilities"
        ∷ [])
      d.spec.id
    then codes "inventory"
    else if one_of
        (codes "credentialed_cors"
          ∷ codes "jwt_integrity"
          ∷ codes "readonly_idor"
          ∷ codes "anonymous_authenticated_diff"
          ∷ [])
        d.spec.id
    then codes "access"
    else if one_of (codes "open_redirect" ∷ codes "lazy_reflection" ∷ []) d.spec.id
    then codes "input"
    else if is_manual d.spec.execution_kind
    then codes "manual"
    else codes "inventory"

unfoldable pub requires_approval : MissionToolDescriptor → Bool
requires_approval d = is_ask d.effective_permission || is_manual d.spec.execution_kind

-- The row that is inserted for a relevant tool.
unfoldable pub planned_action : Mission → Text → ℕ → MissionToolDescriptor → Action
planned_action mission permission_hash id d =
    let needs = requires_approval d in
    record {
      id = id;
      workstream = workstream_of d;
      tool_id = d.spec.id;
      tool_version = d.spec.version;
      execution_kind = d.spec.execution_kind;
      risk_level = d.spec.risk_level;
      identity_mode = default_identity_mode mission d;
      request_cost = d.spec.request_cost;
      permission_snapshot = d.effective_permission;
      permission_hash = permission_hash;
      approval_status = if needs then pending else not_required;
      approval_source = policy;
      status = if needs then awaiting_approval else queued;
      policy_reason =
          if needs then codes "awaiting_user_approval" else codes "allowed_by_permission_profile";
      revision = 1;
      approved_at = none;
      started_at = none;
      completed_at = none;
      handoff = none;
    }

-- The loop over the relevant tools, with the next row id.
unfoldable pub planned_actions : Mission → Text → ℕ → List MissionToolDescriptor → List Action
planned_actions mission permission_hash id [] = []
planned_actions mission permission_hash id (d ∷ ds) =
    let rest = planned_actions mission permission_hash (suc id) ds in
    let others = planned_actions mission permission_hash id ds in
    if tool_relevant mission d then planned_action mission permission_hash id d ∷ rest else others

-- `UPDATE assessment_actions SET … WHERE …`
unfoldable pub update_actions : (Action → Bool) → (Action → Action) → List Action → List Action
update_actions p f = map (λ a. if p a then f a else a)

-- The actions that are open when the context is confirmed are cancelled.
abbrev pub cancel_open : Text → List Action → List Action
cancel_open now actions =
    update_actions (λ (a : Action). is_open_before_context a.status)
      (λ (a : Action). record a { status = cancelled; completed_at = some now }) actions

-- `prepare_workstreams_and_actions`; `now` is what the clock of the database says and `next_id` the
-- row id that it gives next.
unfoldable pub prepare_actions :
    (now : Text)
    → (next_id : ℕ) → Mission
    → List MissionToolDescriptor
    → Text
    → List Action
    → List Action
prepare_actions now next_id mission tools permission_hash actions =
    cancel_open now actions ++ planned_actions mission permission_hash next_id tools
