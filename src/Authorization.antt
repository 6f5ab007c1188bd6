-- ===== src/Authorization.antt =====
-- src-tauri/src/authorization/mod.rs: the errors of the authorization boundary that the proxy and
-- the Repeater share. The messages of the errors are not modelled.
pub mod Url
pub mod Scope
use rust_forge.Base.{[]}
use rust_forge.Text.{Text, codes}

pub data AuthorizationError : Type 0 where
  no_active_project : AuthorizationError
  project_not_found : AuthorizationError
  empty_scope : AuthorizationError
  invalid_scope : AuthorizationError
  invalid_url : AuthorizationError
  unsupported_scheme : Text → AuthorizationError
  url_user_info : AuthorizationError
  missing_host : AuthorizationError
  invalid_host : AuthorizationError
  out_of_scope : Text → AuthorizationError
  storage : AuthorizationError
  -- Not of the source: the panic of `expect("wildcard pattern has prefix")`.
  expect_failed : AuthorizationError

-- `AuthorizationError::code`
unfoldable pub code : AuthorizationError → Text
code no_active_project = codes "NO_ACTIVE_PROJECT"
code project_not_found = codes "PROJECT_NOT_FOUND"
code empty_scope = codes "EMPTY_SCOPE"
code invalid_scope = codes "INVALID_SCOPE"
code invalid_url = codes "INVALID_URL"
code (unsupported_scheme _) = codes "UNSUPPORTED_SCHEME"
code url_user_info = codes "URL_USERINFO"
code missing_host = codes "MISSING_HOST"
code invalid_host = codes "INVALID_HOST"
code (out_of_scope _) = codes "OUT_OF_SCOPE"
code storage = codes "SCOPE_STORAGE"
code expect_failed = []
