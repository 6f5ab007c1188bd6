-- ===== src/Tests/Scopes.antt =====
-- Scopes: compilation and decisions at concrete entries and URLs.
use rust_forge.Base.{◌≡◌, refl, ok, ◌>>=◌}
use rust_forge.Text.{
  Text, codes, one_of, to_ascii_lowercase, trim, trim_start_matches, trim_end_matches,
  is_whitespace, is_control, split, contains, one_char_of, strip_prefix, strip_suffix, starts_with,
  ends_with, split_once,
}
use rust_forge.Authorization.Scope.{
  AuthorizedUrl, exact, canonical_domain, canonical_host, canonical_url_host, canonicalize_name,
  canonicalize_host, authorize_canonical_host, match_loop, matches, matches_kind, suffix_hit,
  authorize_url, check_raw, check_authority,
}
use rust_forge.Authorization.Scope.Pattern.{
  split_scheme, wildcard_pattern, pattern_of_host, normalize_parseable, pattern_of_entry,
  normalize_scope_pattern, compile, new,
}
use rust_forge.Authorization.Scope.Match.{Answers, refusal_of}
use rust_forge.Authorization.Scope.Compile.{IsDistinct, new-Answers}
use rust_forge.Authorization.Scope.Urls.{IsAuthorized, authorize_url-IsAuthorized}
use rust_forge.Tests.{SimpleUrl, simple_lib, entries, scope}

compiled : new simple_lib entries ≡ ok scope
unfolding ◌>>=◌ one_of to_ascii_lowercase trim trim_start_matches trim_end_matches is_whitespace
    is_control split contains one_char_of strip_prefix strip_suffix starts_with ends_with
    canonical_domain canonical_host canonical_url_host canonicalize_name canonicalize_host
    split_scheme wildcard_pattern pattern_of_host normalize_parseable pattern_of_entry
    normalize_scope_pattern compile new
compiled = refl

new-Answers_example :
    IsDistinct scope.patterns
    × ((host : Text)
        → Answers
            (authorize_canonical_host scope host)
            (refusal_of scope.patterns host)
            scope.patterns
            host)
new-Answers_example = new-Answers simple_lib entries scope compiled

abbrev authorized : AuthorizedUrl SimpleUrl
authorized = record {
  url = (codes "b.test", codes "/users");
  decision = record {
    normalized_host = codes "b.test";
    matched_scope = codes "b.test";
    match_kind = exact;
  };
}

allowed : authorize_url simple_lib scope (codes " http://b.test/users") ≡ ok authorized
unfolding ◌>>=◌ one_of to_ascii_lowercase trim trim_start_matches trim_end_matches is_whitespace
    is_control split contains one_char_of strip_prefix strip_suffix starts_with ends_with split_once
    canonical_domain canonical_host canonical_url_host authorize_canonical_host match_loop matches
    matches_kind suffix_hit authorize_url check_raw check_authority
allowed = refl

authorize_url-IsAuthorized_example :
    IsAuthorized simple_lib scope (codes " http://b.test/users") authorized
authorize_url-IsAuthorized_example =
    authorize_url-IsAuthorized simple_lib scope (codes " http://b.test/users") authorized allowed
