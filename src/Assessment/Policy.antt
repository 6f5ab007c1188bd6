-- ===== src/Assessment/Policy.antt =====
-- src-tauri/src/assessment/policy.rs: which target requests an assessment may send. A rejection is
-- its code; the reasons for the user are not modelled. The budget is in Assessment/Budget.antt.
pub mod Percent
pub mod Sound
pub mod Paths
pub mod Decoding
pub mod Encoded
pub mod Segments
pub mod Exclusions
use rust_forge.Base.{
  ℕ, Bool, true, false, ◌&&◌, ◌||◌, not, List, [], ◌∷◌, ◌++◌, map, Option, none, some, Result, ok,
  err, ◌>>=◌, ◌>>◌, guard, ok_or, map_err, if◌then◌else◌, is_some_and, any, ◌==◌, ltb,
}
use rust_forge.Text.{
  Text, codes, text_eq, one_of, is_empty, trim, to_ascii_lowercase, to_ascii_uppercase,
  trim_end_matches, contains, one_char_of, strip_prefix, starts_with, split, replace, byte_len,
  sort_texts, decimal, flat_map,
}
use rust_forge.Authorization.Url.{UrlLib}
use rust_forge.Authorization.Scope.{ScopePolicy, ScopeDecision, AuthorizedUrl, authorize_url}
use rust_forge.Assessment.Policy.Percent.{percent_decode_repeatedly}

abbrev pub builtin_excluded_segments : List Text
builtin_excluded_segments =
    codes "logout"
    ∷ codes "signout"
    ∷ codes "delete"
    ∷ codes "remove"
    ∷ codes "destroy"
    ∷ codes "reset"
    ∷ codes "revoke"
    ∷ codes "terminate"
    ∷ codes "shutdown"
    ∷ codes "purge"
    ∷ codes "wipe"
    ∷ codes "drop"
    ∷ codes "disable"
    ∷ []

abbrev pub forbidden_headers : List Text
forbidden_headers =
    codes "host"
    ∷ codes "content-length"
    ∷ codes "transfer-encoding"
    ∷ codes "connection"
    ∷ codes "upgrade"
    ∷ codes "proxy-authorization"
    ∷ codes "x-http-method-override"
    ∷ codes "x-http-method"
    ∷ codes "x-method-override"
    ∷ codes "x-original-method"
    ∷ codes "x-rewrite-method"
    ∷ []

-- `ReplayHeader` of replay/model.rs
pub record ReplayHeader : Type 0 where
  pub name : Text
  pub value : Text

pub record AssessmentRequestCandidate : Type 0 where
  pub method : Text
  pub url : Text
  pub headers : List ReplayHeader
  pub has_body : Bool

pub record AuthorizedAssessmentRequest (Url : Type 0) : Type 0 where
  pub method : Text
  pub url : Url
  pub headers : List ReplayHeader
  pub scope_decision : ScopeDecision

pub data PolicyRejection : Type 0 where
  invalid_origin : PolicyRejection
  method_not_read_only : PolicyRejection
  request_body_forbidden : PolicyRejection
  forbidden_header : PolicyRejection
  invalid_header : PolicyRejection
  scope_rejected : PolicyRejection
  cross_origin : PolicyRejection
  destructive_path : PolicyRejection
  user_excluded_path : PolicyRejection
  destructive_query : PolicyRejection
  start_url_rejected : PolicyRejection
  invalid_excluded_path : PolicyRejection
  invalid_request_budget : PolicyRejection
  request_budget_exhausted : PolicyRejection
  discovery_budget_exhausted : PolicyRejection
  run_response_bytes_exhausted : PolicyRejection

pub record AssessmentPolicy : Type 0 where
  pub exact_origin : Text
  pub excluded_paths : List Text

unfoldable pub canonical_policy_path : Text → Text
canonical_policy_path path = replace b'\\' b'/' (percent_decode_repeatedly path)

abbrev pub is_bad_path : Text → Bool
is_bad_path path =
    is_empty path
    || not (starts_with (codes "/") path)
    || contains (one_char_of (b'?' ∷ b'#' ∷ b'\r' ∷ b'\n' ∷ [])) path
    || ltb 2048 (byte_len path)

abbrev pub is_slash : ℕ → Bool
is_slash c = c == b'/'

unfoldable pub normalize_excluded_path : Text → Result PolicyRejection Text
normalize_excluded_path raw =
    let path = canonical_policy_path (trim raw) in
    if is_bad_path path
    then err invalid_excluded_path
    else ok (if ltb 1 (byte_len path) then trim_end_matches is_slash path else path)

-- The loop that normalizes and drops repetitions; `normalized` is what it has kept so far.
unfoldable pub collect_paths : List Text → List Text → Result PolicyRejection (List Text)
collect_paths normalized [] = ok normalized
collect_paths normalized (path ∷ paths) = do
  value ← normalize_excluded_path path
  collect_paths (if one_of normalized value then normalized else normalized ++ value ∷ []) paths

unfoldable pub normalize_excluded_paths : List Text → Result PolicyRejection (List Text)
normalize_excluded_paths paths = do normalized ← collect_paths [] paths; ok (sort_texts normalized)

unfoldable pub new : Text → List Text → Result PolicyRejection AssessmentPolicy
new exact_origin excluded_paths = do
  guard (not (is_empty (trim exact_origin))) invalid_origin
  normalized ← collect_paths [] excluded_paths
  ok (record { exact_origin = exact_origin; excluded_paths = sort_texts normalized })

unfoldable pub path_matches_prefix : Text → Text → Bool
path_matches_prefix path excluded =
    text_eq excluded (codes "/")
    || text_eq path excluded
    || is_some_and (starts_with (codes "/")) (strip_prefix excluded path)

-- The words of a path segment once it is decoded.
unfoldable pub segment_words : Text → List Text
segment_words segment =
    map (λ w. to_ascii_lowercase (trim w))
      (split (one_char_of (b'/' ∷ b'\\' ∷ b';' ∷ [])) (percent_decode_repeatedly segment))

unfoldable pub is_destructive : Text → Bool
is_destructive word = one_of builtin_excluded_segments word

unfoldable pub is_destructive_pair : Text × Text → Bool
is_destructive_pair pair =
    let name = to_ascii_lowercase (percent_decode_repeatedly pair.0) in
    let value = to_ascii_lowercase (trim (percent_decode_repeatedly pair.1)) in
    text_eq name (codes "_method")
    || (one_of (codes "action" ∷ codes "do" ∷ []) name && is_destructive value)

unfoldable pub is_read_only : Text → Bool
is_read_only method = one_of (codes "GET" ∷ codes "HEAD" ∷ codes "OPTIONS" ∷ []) method

abbrev pub has_line_break : Text → Bool
has_line_break s = contains (one_char_of (b'\r' ∷ b'\n' ∷ [])) s

-- The loop over the headers of `authorize`.
unfoldable pub check_headers : List ReplayHeader → Result PolicyRejection (Unit {0})
check_headers [] = ok tt
check_headers (header ∷ headers) = do
  guard (not (one_of forbidden_headers (to_ascii_lowercase (trim header.name)))) forbidden_header
  guard (not (has_line_break header.name || has_line_break header.value)) invalid_header
  check_headers headers

module _ {Url : Type 0} (lib : UrlLib Url) where
  unfoldable pub path_has_destructive_segment : Url → Bool
  path_has_destructive_segment url =
      is_some_and (λ segments. any is_destructive (flat_map segment_words segments))
        (lib.path_segments url)

  unfoldable pub query_requests_method_override_or_destructive_action : Url → Bool
  query_requests_method_override_or_destructive_action url =
      any is_destructive_pair (lib.query_pairs url)

  unfoldable pub exact_origin : Url → Result PolicyRejection Text
  exact_origin url = do
    host ← ok_or (lib.host_str url) invalid_origin
    port ← ok_or (lib.port_or_known_default url) invalid_origin
    let authority_host =
        if contains (λ c. c == b':') host
        then codes "[" ++ host ++ codes "]"
        else to_ascii_lowercase host
    ok (lib.scheme url ++ codes "://" ++ authority_host ++ codes ":" ++ decimal port)

  unfoldable pub authorize :
      AssessmentPolicy
      → ScopePolicy
      → AssessmentRequestCandidate
      → Result PolicyRejection (AuthorizedAssessmentRequest Url)
  authorize policy scope candidate = do
    let method = to_ascii_uppercase (trim candidate.method)
    guard (is_read_only method) method_not_read_only
    guard (not candidate.has_body) request_body_forbidden
    check_headers candidate.headers
    authorized ← map_err (λ _. scope_rejected) (authorize_url lib scope candidate.url)
    origin ← exact_origin authorized.url
    guard (text_eq origin policy.exact_origin) cross_origin
    guard (not (path_has_destructive_segment authorized.url)) destructive_path
    let path = canonical_policy_path (lib.path authorized.url)
    guard (not (any (path_matches_prefix path) policy.excluded_paths)) user_excluded_path
    guard (not (query_requests_method_override_or_destructive_action authorized.url))
        destructive_query
    ok (record {
      method = method;
      url = authorized.url;
      headers = candidate.headers;
      scope_decision = authorized.decision;
    })

  unfoldable pub normalize_start_url : ScopePolicy → Text → Result PolicyRejection (Text × Text)
  normalize_start_url scope raw_url = do
    authorized ← map_err (λ _. start_url_rejected) (authorize_url lib scope raw_url)
    let url = lib.without_fragment authorized.url
    origin ← exact_origin url
    ok (lib.to_text url, origin)
