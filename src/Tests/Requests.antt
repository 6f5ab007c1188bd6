-- ===== src/Tests/Requests.antt =====
-- The request policy at concrete requests.
use rust_forge.Base.{◌≡◌, refl, inl, inr, true, false, [], ◌∷◌, some, ok, err, ◌>>=◌, arith}
use rust_forge.Text.{
  codes, one_of, to_ascii_lowercase, to_ascii_uppercase, trim, trim_start_matches, trim_end_matches,
  is_whitespace, is_control, split, contains, one_char_of, strip_prefix, strip_suffix, starts_with,
  ends_with, split_once, replace, flat_map, decimal,
}
use rust_forge.Text.Utf8.{as_bytes, from_utf8_lossy}
use rust_forge.Authorization.Scope.{
  exact, canonical_domain, canonical_host, canonical_url_host, authorize_canonical_host, match_loop,
  matches, matches_kind, suffix_hit, authorize_url, check_raw, check_authority,
}
use rust_forge.Assessment.Policy.{
  AssessmentRequestCandidate, AuthorizedAssessmentRequest, invalid_excluded_path,
  canonical_policy_path, normalize_excluded_path, path_matches_prefix, segment_words,
  is_destructive, is_destructive_pair, is_read_only, check_headers, path_has_destructive_segment,
  query_requests_method_override_or_destructive_action, exact_origin, authorize,
}
use rust_forge.Assessment.Policy.Percent.{
  hex_value, percent_bytes, percent_decode_lossy, decode_rounds, percent_decode_repeatedly,
}
use rust_forge.Assessment.Policy.Sound.{IsSafe, authorize-IsSafe}
use rust_forge.Assessment.Policy.Decoding.{encoded, percent_decode_repeatedly-encoded}
use rust_forge.Assessment.Policy.Encoded.{
  decimal_digit, lower_digit, nothing, kept, escaped, EncodedTimes, as_it_is, once_more,
}
use rust_forge.Assessment.Policy.Segments.{IsDestructiveWord, destructive_segment_found}
use rust_forge.Assessment.Policy.Exclusions.{slashes, slashes_unstable}
use rust_forge.Tests.{SimpleUrl, simple_lib, scope, policy}

abbrev candidate : AssessmentRequestCandidate
candidate = record {
  method = codes " get";
  url = codes "http://b.test/users";
  headers = record { name = codes "Accept"; value = codes "*/*" } ∷ [];
  has_body = false;
}

abbrev request : AuthorizedAssessmentRequest SimpleUrl
request = record {
  method = codes "GET";
  url = (codes "b.test", codes "/users");
  headers = record { name = codes "Accept"; value = codes "*/*" } ∷ [];
  scope_decision = record {
    normalized_host = codes "b.test";
    matched_scope = codes "b.test";
    match_kind = exact;
  };
}

let_through : authorize simple_lib policy scope candidate ≡ ok request
unfolding ◌>>=◌ one_of to_ascii_lowercase to_ascii_uppercase trim trim_start_matches
    trim_end_matches is_whitespace is_control split contains one_char_of strip_prefix strip_suffix
    starts_with ends_with split_once replace flat_map decimal as_bytes from_utf8_lossy
    canonical_domain canonical_host canonical_url_host authorize_canonical_host match_loop matches
    matches_kind suffix_hit authorize_url check_raw check_authority canonical_policy_path
    path_matches_prefix segment_words is_destructive is_destructive_pair is_read_only check_headers
    path_has_destructive_segment query_requests_method_override_or_destructive_action exact_origin
    authorize hex_value percent_bytes percent_decode_lossy decode_rounds percent_decode_repeatedly
let_through = refl

authorize-IsSafe_example : IsSafe simple_lib policy scope candidate request
authorize-IsSafe_example = authorize-IsSafe simple_lib policy scope candidate request let_through

percent_decode_repeatedly-encoded_example :
    percent_decode_repeatedly (encoded 2 (codes "a/b")) ≡ codes "a/b"
percent_decode_repeatedly-encoded_example =
    percent_decode_repeatedly-encoded 2 (codes "a/b") (omega arith) (omega arith)

-- `/x/%6cogOut`
abbrev logout_url : SimpleUrl
logout_url = (codes "b.test", codes "/x/%6cogOut")

written_once : EncodedTimes 1 (codes "logOut") (codes "%6cogOut")
written_once = once_more as_it_is (
    escaped (decimal_digit {n = 6} (omega arith)) (lower_digit {n = 2} (omega arith)) (
      kept (omega arith) (
        kept (omega arith) (kept (omega arith) (kept (omega arith) (kept (omega arith) nothing))))))

is_logout : IsDestructiveWord (codes "logOut")
unfolding to_ascii_lowercase
is_logout = inl refl

segments_of : simple_lib.path_segments logout_url ≡ some (codes "x" ∷ codes "%6cogOut" ∷ [])
unfolding split
segments_of = refl

destructive_segment_found_example : path_has_destructive_segment simple_lib logout_url ≡ true
destructive_segment_found_example =
    destructive_segment_found simple_lib logout_url (codes "x" ∷ codes "%6cogOut" ∷ []) 1
      (codes "logOut") (codes "%6cogOut") segments_of (omega arith) is_logout written_once
      (inr (inl refl))

slashes_unstable_example :
    (normalize_excluded_path (slashes 2) ≡ ok [])
    × (normalize_excluded_path [] ≡ err invalid_excluded_path)
slashes_unstable_example = slashes_unstable 2 (omega arith) (omega arith)
