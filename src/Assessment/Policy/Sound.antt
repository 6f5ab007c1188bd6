-- ===== src/Assessment/Policy/Sound.antt =====
-- What `authorize` guarantees of a request that it lets through.
use rust_forge.Base.{
  ◌≡◌, ◌≢◌, refl, ap, ◌∙◌, ◌⊎◌, inl, inr, true, false, not, ◌||◌, List, [], ◌∷◌, Option, none, some,
  arith, ok, any, is_some_and, All, Any, Bool-cases, Ensures, Ensures-ok, Ensures-bind,
  Ensures-guard, map_err-eq-ok, Ensures-mono, or-eq-false,
}
use rust_forge.Text.{
  Text, codes, text_eq, one_of, trim, to_ascii_lowercase, contains, one_char_of, flat_map,
}
use rust_forge.Text.Laws.{text_eq→eq, text_eq-false, one_of-Any, one_of-All, not-eq-true}
use rust_forge.Authorization.Url.{UrlLib}
use rust_forge.Authorization.Scope.{ScopePolicy, authorize_url}
use rust_forge.Assessment.Policy.{
  builtin_excluded_segments, forbidden_headers, ReplayHeader, AssessmentRequestCandidate,
  AuthorizedAssessmentRequest, AssessmentPolicy, canonical_policy_path, segment_words,
  is_destructive, is_destructive_pair, is_read_only, has_line_break, check_headers,
  path_has_destructive_segment, query_requests_method_override_or_destructive_action, exact_origin,
  authorize,
}
use rust_forge.Assessment.Policy.Percent.{percent_decode_repeatedly}
use rust_forge.Assessment.Policy.Paths.{UnderPath, no_match-All}

abbrev pub IsReadOnly : Text → Type 0
IsReadOnly method = Any (λ m. method ≡ m) (codes "GET" ∷ codes "HEAD" ∷ codes "OPTIONS" ∷ [])

-- Neither carriage return nor line feed.
abbrev pub OneLine : Text → Type 0
OneLine s = All (λ c. (c ≢ b'\r') × (c ≢ b'\n')) s

abbrev pub IsSafeHeader : ReplayHeader → Type 0
IsSafeHeader h =
    All (λ name. to_ascii_lowercase (trim h.name) ≢ name) forbidden_headers
    × OneLine h.name
    × OneLine h.value

abbrev pub IsHarmless : Text → Type 0
IsHarmless word = All (λ w. word ≢ w) builtin_excluded_segments

abbrev pub IsHarmlessPair : Text × Text → Type 0
IsHarmlessPair pair =
    (to_ascii_lowercase (percent_decode_repeatedly pair.0) ≢ codes "_method")
    × (All (λ name. to_ascii_lowercase (percent_decode_repeatedly pair.0) ≢ name)
          (codes "action" ∷ codes "do" ∷ [])
        ⊎ IsHarmless (to_ascii_lowercase (trim (percent_decode_repeatedly pair.1))))

has_line_break-OneLine : (s : Text) → has_line_break s ≡ false → OneLine s
unfolding contains one_char_of
has_line_break-OneLine [] h = tt
has_line_break-OneLine (c ∷ s) h =
    let head : (c ≢ b'\r') × (c ≢ b'\n') = ground arith in
    let rest : has_line_break s ≡ false = ground arith in (head, has_line_break-OneLine s rest)

is_safe_header :
    (h : ReplayHeader)
    → not (one_of forbidden_headers (to_ascii_lowercase (trim h.name))) ≡ true
    → not (has_line_break h.name || has_line_break h.value) ≡ true
    → IsSafeHeader h
is_safe_header h allowed line =
    let lines = or-eq-false _ _ (not-eq-true _ line) in
    (
      one_of-All forbidden_headers _ (not-eq-true _ allowed),
      has_line_break-OneLine h.name lines.0,
      has_line_break-OneLine h.value lines.1,
    )

check_headers-Ensures :
    (headers : List ReplayHeader) → Ensures (λ _. All IsSafeHeader headers) (check_headers headers)
unfolding check_headers
check_headers-Ensures [] = Ensures-ok _ tt
check_headers-Ensures (h ∷ headers) = Ensures-guard _ _ _ λ allowed. Ensures-guard _ _ _ λ line.
    Ensures-mono (λ _ rest. (is_safe_header h allowed line, rest)) (check_headers-Ensures headers)

is_destructive-false : (words : List Text) → any is_destructive words ≡ false → All IsHarmless words
unfolding is_destructive
is_destructive-false [] h = tt
is_destructive-false (w ∷ words) h =
    let parts = or-eq-false (one_of builtin_excluded_segments w) (any is_destructive words) h in
    (one_of-All builtin_excluded_segments w parts.0, is_destructive-false words parts.1)

harmless_pair : (pair : Text × Text) → is_destructive_pair pair ≡ false → IsHarmlessPair pair
unfolding is_destructive_pair is_destructive
harmless_pair pair h =
    let name = to_ascii_lowercase (percent_decode_repeatedly pair.0) in
    let parts = or-eq-false (text_eq name (codes "_method")) _ h in
    (
      text_eq-false name _ parts.0,
      elim (Bool-cases (one_of (codes "action" ∷ codes "do" ∷ []) name)) [
        | inr other ↦ inl (one_of-All _ name other)
        | inl named ↦
            let harmless : is_destructive
                  (to_ascii_lowercase (trim (percent_decode_repeatedly pair.1)))
                ≡ false =
              rw named at parts.1 in
            inr (one_of-All builtin_excluded_segments _ harmless)
      ],
    )

harmless_pairs :
    (pairs : List (Text × Text)) → any is_destructive_pair pairs ≡ false → All IsHarmlessPair pairs
harmless_pairs [] h = tt
harmless_pairs (p ∷ pairs) h =
    let parts = or-eq-false (is_destructive_pair p) (any is_destructive_pair pairs) h in
    (harmless_pair p parts.0, harmless_pairs pairs parts.1)

abbrev pub AllIn {ℓ} : {A : Type ℓ} → (A → Type 0) → Option A → Type 0
AllIn P none = Unit
AllIn P (some a) = P a

module _ {Url : Type 0} (lib : UrlLib Url) where
  segments-IsHarmless :
      (url : Url)
      → path_has_destructive_segment lib url ≡ false
      → AllIn (λ segments. All IsHarmless (flat_map segment_words segments)) (lib.path_segments url)
  unfolding path_has_destructive_segment
  segments-IsHarmless url h = go (lib.path_segments url) h
    where
      go :
          (o : Option (List Text))
          → is_some_and (λ segments. any is_destructive (flat_map segment_words segments)) o ≡ false
          → AllIn (λ segments. All IsHarmless (flat_map segment_words segments)) o
      go none h = tt
      go (some segments) h = is_destructive-false (flat_map segment_words segments) h

  module _ (policy : AssessmentPolicy) (scope : ScopePolicy)
      (candidate : AssessmentRequestCandidate) where
    -- What is promised of a request that is let through.
    pub record IsSafe (request : AuthorizedAssessmentRequest Url) : Type 0 where
      pub read_only : IsReadOnly request.method
      pub no_body : candidate.has_body ≡ false
      pub headers_kept : request.headers ≡ candidate.headers
      pub headers_safe : All IsSafeHeader request.headers
      pub in_scope :
          authorize_url lib scope candidate.url
          ≡ ok (record { url = request.url; decision = request.scope_decision })
      pub same_origin : exact_origin lib request.url ≡ ok policy.exact_origin
      pub harmless_path :
          AllIn
            (λ segments. All IsHarmless (flat_map segment_words segments))
            (lib.path_segments request.url)
      pub not_excluded :
          All
            (λ excluded. ¬ UnderPath excluded (canonical_policy_path (lib.path request.url)))
            policy.excluded_paths
      pub harmless_query : All IsHarmlessPair (lib.query_pairs request.url)

    authorize-Ensures : Ensures IsSafe (authorize lib policy scope candidate)
    unfolding authorize query_requests_method_override_or_destructive_action is_read_only
    authorize-Ensures = Ensures-guard _ _ _ λ method. Ensures-guard _ _ _ λ body.
        Ensures-bind _ _ λ _ headers. Ensures-bind _ _ λ authorized scoped.
          Ensures-bind _ _ λ origin found. Ensures-guard _ _ _ λ same. Ensures-guard _ _ _ λ path.
            Ensures-guard _ _ _ λ free. Ensures-guard _ _ _ λ query. Ensures-ok _ (record {
              read_only = one_of-Any _ _ method;
              no_body = not-eq-true _ body;
              headers_kept = refl;
              headers_safe = (check_headers-Ensures candidate.headers).at tt headers;
              in_scope = map_err-eq-ok _ _ scoped;
              same_origin = found ∙ ap ok (text_eq→eq origin policy.exact_origin same);
              harmless_path = segments-IsHarmless authorized.url (not-eq-true _ path);
              not_excluded = no_match-All _ policy.excluded_paths (not-eq-true _ free);
              harmless_query = harmless_pairs _ (not-eq-true _ query);
            })

    -- A request that `authorize` lets through is GET, HEAD or OPTIONS without a body; none of its
    -- headers is forbidden or breaks its line; its URL is the one that the scope authorized and
    -- has the exact origin of the contract; no decoded word of its path segments is a destructive
    -- one; its decoded path is no excluded path and lies below none; and no query pair overrides
    -- the method or names a destructive action.
    pub authorize-IsSafe :
        (request : AuthorizedAssessmentRequest Url)
        → authorize lib policy scope candidate ≡ ok request
        → IsSafe request
    authorize-IsSafe request h = authorize-Ensures.at request h
