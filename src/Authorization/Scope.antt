-- ===== src/Authorization/Scope.antt =====
-- src-tauri/src/authorization/scope.rs: the compiled project scope. `ScopePolicy::new` compiles
-- the entries, `authorize_host` and `authorize_url` decide.
pub mod Pattern
pub mod Match
pub mod Compile
pub mod Urls
use mathlib.Core.Option
use rust_forge.Base.{
  ℕ, Bool, true, false, ◌&&◌, ◌||◌, not, List, [], ◌∷◌, ◌++◌, map, Option, none, some, Result, ok,
  err, ◌>>=◌, ◌>>◌, guard, ok_or, map_err, if◌then◌else◌, is_some, is_some_and, any, ◌==◌,
}
use rust_forge.Text.{
  first_part, Text, codes, text_eq, one_of, is_empty, trim, is_whitespace, is_control,
  to_ascii_lowercase, trim_end_matches, contains, one_char_of, strip_prefix, strip_suffix,
  starts_with, ends_with, split, split_once,
}
use rust_forge.Authorization.{
  AuthorizationError, empty_scope, invalid_scope, invalid_url, unsupported_scheme, url_user_info,
  missing_host, invalid_host, out_of_scope, expect_failed,
}
use rust_forge.Authorization.Url.{Host, domain, ipv4, ipv6, UrlLib}

pub data ScopeMatchKind : Type 0 where
  exact : ScopeMatchKind
  wildcard : ScopeMatchKind

pub record ScopeDecision : Type 0 where
  pub normalized_host : Text
  pub matched_scope : Text
  pub match_kind : ScopeMatchKind

pub record AuthorizedUrl (Url : Type 0) : Type 0 where
  pub url : Url
  pub decision : ScopeDecision

pub record ScopePattern : Type 0 where
  pub normalized : Text
  pub kind : ScopeMatchKind

pub data HostKind : Type 0 where
  domain_host : HostKind
  ip_host : HostKind

pub record CanonicalHost : Type 0 where
  pub value : Text
  pub kind : HostKind

pub record ScopePolicy : Type 0 where
  pub patterns : List ScopePattern

abbrev pub blank : ℕ → Bool
blank c = is_whitespace c || is_control c

unfoldable pub canonical_domain : Text → Result AuthorizationError CanonicalHost
canonical_domain raw =
    let name = to_ascii_lowercase (trim_end_matches (λ c. c == b'.') raw) in
    if is_empty name then err invalid_host else ok (record { value = name; kind = domain_host })

unfoldable pub canonical_host : Host → Result AuthorizationError CanonicalHost
canonical_host (domain name) = canonical_domain name
canonical_host (ipv4 ip) = ok (record { value = ip; kind = ip_host })
canonical_host (ipv6 ip) = ok (record { value = ip; kind = ip_host })

-- The `split(['/', '?', '#']).next()` of an authority.
abbrev pub authority_of : Text → Text
authority_of s = first_part (split (one_char_of (codes "/?#")) s)

-- `host == suffix || host.strip_suffix(suffix).is_some_and(|prefix| prefix.ends_with('.'))`
unfoldable pub suffix_hit : Text → Text → Bool
suffix_hit suffix host =
    text_eq host suffix || is_some_and (ends_with (codes ".")) (strip_suffix suffix host)

-- One pattern against a host; `none` is the panic of `expect`.
unfoldable pub matches_kind : ScopeMatchKind → Text → Text → Option Bool
matches_kind exact normalized host = some (text_eq host normalized)
matches_kind wildcard normalized host =
    Option.map (λ suffix. suffix_hit suffix host) (strip_prefix (codes "*.") normalized)

unfoldable pub matches : ScopePattern → Text → Option Bool
unfolding matches_kind
matches pattern host = matches_kind pattern.kind pattern.normalized host

-- The loop of `authorize_canonical_host`.
unfoldable pub match_loop : List ScopePattern → Text → Result AuthorizationError ScopeDecision
match_loop [] host = err (out_of_scope host)
match_loop (p ∷ ps) host =
    let rest = match_loop ps host in
    elim (matches p host) [
      | none ↦ err expect_failed
      | some hit ↦
          if hit
          then ok
              (record { normalized_host = host; matched_scope = p.normalized; match_kind = p.kind })
          else rest
    ]

unfoldable pub authorize_canonical_host :
    ScopePolicy → Text → Result AuthorizationError ScopeDecision
authorize_canonical_host policy host = elim policy.patterns [
  | [] ↦ err empty_scope
  | p ∷ ps ↦ match_loop (p ∷ ps) host
]

unfoldable pub is_empty_policy : ScopePolicy → Bool
is_empty_policy policy = elim policy.patterns [ [] ↦ true | _ ↦ false ]

unfoldable pub normalized_entries : ScopePolicy → List Text
normalized_entries policy = map (λ (p : ScopePattern). p.normalized) policy.patterns

abbrev pub bracketless : Text → Text
bracketless raw = elim (strip_prefix (codes "[") raw) [
  | none ↦ raw
  | some inner ↦ elim (strip_suffix (codes "]") inner) [ none ↦ raw | some v ↦ v ]
]

-- The guard on `//authority` of `authorize_url`, for the schemes http and https.
unfoldable pub check_authority : Text → Result AuthorizationError (Unit {0})
check_authority remainder = do
  rest ← ok_or (strip_prefix (codes "//") remainder) invalid_url
  let authority = authority_of rest
  guard (not (is_empty authority)) missing_host
  guard (not (contains (λ c. c == b'@') authority)) url_user_info
  guard (not (contains (λ c. c == b'\\') authority)) invalid_url
  ok tt

abbrev pub is_http : Text → Bool
is_http scheme = one_of (codes "http" ∷ codes "https" ∷ []) scheme

unfoldable pub check_raw : Text → Result AuthorizationError (Unit {0})
check_raw raw = elim (split_once b':' raw) [
  | none ↦ ok tt
  | some parts ↦ if is_http (to_ascii_lowercase parts.0) then check_authority parts.1 else ok tt
]

module _ {Url : Type 0} (lib : UrlLib Url) where
  unfoldable pub canonical_url_host : Url → Result AuthorizationError CanonicalHost
  canonical_url_host url = do host ← ok_or (lib.host url) missing_host; canonical_host host

  -- The end of `canonicalize_host`, for a host that is no IPv6 literal.
  unfoldable pub canonicalize_name : Text → Result AuthorizationError CanonicalHost
  canonicalize_name raw =
      let name = trim_end_matches (λ c. c == b'.') raw in
      if is_empty name || contains (λ c. c == b':') name
      then err invalid_host
      else do host ← ok_or (lib.parse_host name) invalid_host; canonical_host host

  unfoldable pub canonicalize_host : Text → Result AuthorizationError CanonicalHost
  canonicalize_host raw =
      let host = trim raw in
      if is_empty host || contains (λ c. c == b'*') host || contains blank host
      then err invalid_host
      else elim (lib.parse_ipv6 (bracketless host)) [
        | some ip ↦ ok (record { value = ip; kind = ip_host })
        | none ↦ canonicalize_name host
      ]

  unfoldable pub authorize_host : ScopePolicy → Text → Result AuthorizationError ScopeDecision
  authorize_host policy raw = do
    host ← canonicalize_host raw
    authorize_canonical_host policy host.value

  unfoldable pub authorize_url : ScopePolicy → Text → Result AuthorizationError (AuthorizedUrl Url)
  authorize_url policy raw_url = do
    let raw = trim raw_url
    guard (not (is_empty raw || contains blank raw)) invalid_url
    check_raw raw
    url ← ok_or (lib.parse raw) invalid_url
    guard (is_http (lib.scheme url)) (unsupported_scheme (lib.scheme url))
    guard (is_empty (lib.username url) && not (is_some (lib.password url))) url_user_info
    host ← canonical_url_host url
    decision ← authorize_canonical_host policy host.value
    ok (record { url = url; decision = decision })
