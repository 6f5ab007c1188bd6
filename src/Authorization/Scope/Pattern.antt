-- ===== src/Authorization/Scope/Pattern.antt =====
-- src-tauri/src/authorization/scope.rs: the entries of a scope and their compilation,
-- `normalize_scope_pattern`, `ScopePolicy::new` and `normalize_scope_entries`.
use mathlib.Core.Option
use rust_forge.Base.{
  ℕ, Bool, true, false, ◌&&◌, not, List, [], ◌∷◌, ◌++◌, Option, none, some, Result, ok, err, ◌>>=◌,
  ◌>>◌, guard, ok_or, map_err, if◌then◌else◌, is_some, any, ◌==◌,
}
use rust_forge.Text.{Text, codes, text_eq, is_empty, trim, contains, strip_prefix, starts_with}
use rust_forge.Authorization.{AuthorizationError, invalid_scope}
use rust_forge.Authorization.Url.{UrlLib}
use rust_forge.Authorization.Scope.{
  HostKind, domain_host, ip_host, exact, wildcard, ScopePattern, domain_host, ip_host,
  CanonicalHost, ScopePolicy, blank, authority_of, is_http, canonical_url_host, canonicalize_host,
  normalized_entries,
}

abbrev pub wildcard_marker : Text
wildcard_marker = codes "scope-wildcard-marker"

-- `find("://")`: the text up to the end of the first `://`, and what follows.
abbrev pub add_front : ℕ → Text × Text → Text × Text
add_front c r = (c ∷ r.0, r.1)

unfoldable pub split_scheme : Text → Option (Text × Text)
split_scheme [] = none
split_scheme (c ∷ s) =
    let later = split_scheme s in
    elim (strip_prefix (codes "://") (c ∷ s)) [
      | some rest ↦ some (codes "://", rest)
      | none ↦ Option.map (add_front c) later
    ]

abbrev pub with_scheme : Text → Text
with_scheme raw = if is_some (split_scheme raw) then raw else codes "http://" ++ raw

-- `replace_range` of the star by the marker.
abbrev pub mark_wildcard : Text → Text → Text
mark_wildcard front rest = elim rest [ [] ↦ front | _ ∷ tail ↦ front ++ wildcard_marker ++ tail ]

-- `seen.insert(…)` and the push of `ScopePolicy::new`; `seen` holds the normalized texts of the
-- patterns pushed so far.
abbrev pub is_seen : List ScopePattern → Text → Bool
is_seen ps key = any (λ p. text_eq key p.normalized) ps

abbrev pub push_new : List ScopePattern → ScopePattern → List ScopePattern
push_new ps p = if is_seen ps p.normalized then ps else ps ++ p ∷ []

abbrev pub push_found : List ScopePattern → Option ScopePattern → List ScopePattern
push_found ps none = ps
push_found ps (some p) = push_new ps p

unfoldable pub wildcard_pattern : HostKind → Text → Result AuthorizationError ScopePattern
wildcard_pattern domain_host suffix =
    ok (record { normalized = codes "*." ++ suffix; kind = wildcard })
wildcard_pattern ip_host suffix = err invalid_scope

module _ {Url : Type 0} (lib : UrlLib Url) where
  -- The end of `normalize_scope_pattern`: the pattern for the host of the parsed entry.
  unfoldable pub pattern_of_host : Bool → CanonicalHost → Result AuthorizationError ScopePattern
  pattern_of_host false host = ok (record { normalized = host.value; kind = exact })
  pattern_of_host true host = do
    suffix ← ok_or (strip_prefix (wildcard_marker ++ codes ".") host.value) invalid_scope
    canonical ← map_err (λ _. invalid_scope) (canonicalize_host lib suffix)
    wildcard_pattern canonical.kind canonical.value

  unfoldable pub normalize_parseable : Text → Result AuthorizationError ScopePattern
  normalize_parseable parseable = do
    parts ← ok_or (split_scheme parseable) invalid_scope
    let authority = authority_of parts.1
    guard (not (is_empty authority)) invalid_scope
    guard (not (contains (λ c. c == b'@') authority)) invalid_scope
    guard (not (contains (λ c. c == b'\\') authority)) invalid_scope
    let star = starts_with (codes "*.") authority
    url ←
        ok_or (lib.parse (if star then mark_wildcard parts.0 parts.1 else parseable)) invalid_scope
    guard (is_http (lib.scheme url)) invalid_scope
    guard (is_empty (lib.username url) && not (is_some (lib.password url))) invalid_scope
    host ← map_err (λ _. invalid_scope) (canonical_url_host lib url)
    pattern_of_host star host

  -- An entry that is an IPv6 address is the pattern of that address.
  unfoldable pub pattern_of_entry :
      Option Text → Text → Result AuthorizationError (Option ScopePattern)
  pattern_of_entry (some ip) raw = ok (some (record { normalized = ip; kind = exact }))
  pattern_of_entry none raw = do p ← normalize_parseable (with_scheme raw); ok (some p)

  unfoldable pub normalize_scope_pattern : Text → Result AuthorizationError (Option ScopePattern)
  normalize_scope_pattern raw_entry =
      let raw = trim raw_entry in
      if is_empty raw then ok none else do
        guard (not (contains blank raw)) invalid_scope
        pattern_of_entry (lib.parse_ipv6 raw) raw

  -- The loop of `ScopePolicy::new`.
  unfoldable pub compile :
      List ScopePattern → List Text → Result AuthorizationError (List ScopePattern)
  compile patterns [] = ok patterns
  compile patterns (raw ∷ entries) = do
    found ← normalize_scope_pattern raw
    compile (push_found patterns found) entries

  unfoldable pub new : List Text → Result AuthorizationError ScopePolicy
  new entries = do patterns ← compile [] entries; ok (record { patterns = patterns })

  unfoldable pub normalize_scope_entries : List Text → Result AuthorizationError (List Text)
  normalize_scope_entries entries = do policy ← new entries; ok (normalized_entries policy)
