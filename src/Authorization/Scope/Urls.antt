-- ===== src/Authorization/Scope/Urls.antt =====
-- What an authorized URL is, and that the spelling of a domain does not matter.
use rust_forge.Base.{
  ◌≡◌, refl, ap, ◌∙◌, ◌⊎◌, inl, inr, ℕ, map, not, is_some, true, false, ◌&&◌, [], ◌∷◌, ◌++◌, none,
  some, ok, arith, ◌==◌, Ensures, Ensures-ok, Ensures-bind, Ensures-guard, ok_or-eq-ok, Bool-cases,
}
use rust_forge.Text.{
  Text, codes, text_eq, one_of, is_empty, trim, to_ascii_lowercase, to_ascii_uppercase,
  trim_end_matches, lower, upper,
}
use rust_forge.Text.Laws.{text_eq→eq}
use rust_forge.Authorization.Url.{UrlLib}
use rust_forge.Authorization.Scope.{
  AuthorizedUrl, CanonicalHost, ScopePolicy, canonical_domain, canonical_url_host,
  authorize_canonical_host, authorize_url, is_http,
}

abbrev pub IsHttp : Text → Type 0
IsHttp scheme = (scheme ≡ codes "http") ⊎ (scheme ≡ codes "https")

is_http-IsHttp : (s : Text) → is_http s ≡ true → IsHttp s
unfolding one_of
is_http-IsHttp s h = elim (Bool-cases (text_eq s (codes "http"))) [
  | inl e ↦ inl (text_eq→eq s _ e)
  | inr e ↦ elim (Bool-cases (text_eq s (codes "https"))) [
    | inl f ↦ inr (text_eq→eq s _ f)
    | inr f ↦ let k : false ≡ true = rw (e, f) at h in cc
  ]
]

is_empty→eq : (s : Text) → is_empty s ≡ true → s ≡ []
is_empty→eq [] h = refl
is_empty→eq (c ∷ s) h = cc

module _ {Url : Type 0} (lib : UrlLib Url) (policy : ScopePolicy) where
  abbrev pub IsAuthorized : Text → AuthorizedUrl Url → Type 0
  IsAuthorized raw a =
      (lib.parse (trim raw) ≡ some a.url)
      × IsHttp (lib.scheme a.url)
      × (lib.username a.url ≡ [])
      × (lib.password a.url ≡ none)
      × ((host : CanonicalHost) × (canonical_url_host lib a.url ≡ ok host)
          × (authorize_canonical_host policy host.value ≡ ok a.decision))

  no_user_info :
      (url : Url)
      → (is_empty (lib.username url) && not (is_some (lib.password url))) ≡ true
      → (lib.username url ≡ []) × (lib.password url ≡ none)
  no_user_info url h = ground (arith, is_empty→eq (lib.username url))

  authorize_url-Ensures : (raw : Text) → Ensures (IsAuthorized raw) (authorize_url lib policy raw)
  unfolding authorize_url
  authorize_url-Ensures raw = Ensures-guard _ _ _ λ _. Ensures-bind _ _ λ _ _.
      Ensures-bind _ _ λ url parsed. Ensures-guard _ _ _ λ http. Ensures-guard _ _ _ λ plain.
        Ensures-bind _ _ λ host canonical. Ensures-bind _ _ λ decision allowed. Ensures-ok _ (
          ok_or-eq-ok _ _ parsed,
          is_http-IsHttp _ http,
          (no_user_info url plain).0,
          (no_user_info url plain).1,
          (host, canonical, allowed),
        )

  -- The URL that `authorize_url` returns is what the trimmed text parses to, with scheme http or
  -- https and no user info, and its decision is the one of the policy for the canonical host of
  -- that very URL.
  pub authorize_url-IsAuthorized :
      (raw : Text) (a : AuthorizedUrl Url)
      → authorize_url lib policy raw ≡ ok a
      → IsAuthorized raw a
  authorize_url-IsAuthorized raw a h = (authorize_url-Ensures raw).at a h

lower-upper : (c : ℕ) → lower (upper c) ≡ lower c
lower-upper c = ground arith

lowercase-uppercase : (s : Text) → to_ascii_lowercase (to_ascii_uppercase s) ≡ to_ascii_lowercase s
unfolding to_ascii_lowercase to_ascii_uppercase
lowercase-uppercase [] = refl
lowercase-uppercase (c ∷ s) = cc (lower-upper c, lowercase-uppercase s)

-- A dot is no letter.
dot-upper : (c : ℕ) → (upper c == b'.') ≡ (c == b'.')
dot-upper c = ground arith

is_empty-map : (s : Text) → is_empty (map upper s) ≡ is_empty s
is_empty-map [] = refl
is_empty-map (c ∷ s) = refl

trim_dots-upper :
    (s : Text)
    → trim_end_matches (λ c. c == b'.') (map upper s)
      ≡ map upper (trim_end_matches (λ c. c == b'.') s)
unfolding trim_end_matches
trim_dots-upper [] = refl
trim_dots-upper (c ∷ s) =
    let rest = trim_end_matches (λ c. c == b'.') s in
    rw (trim_dots-upper s) (rw (dot-upper c, is_empty-map) (ground arith))

canonical_text-upper :
    (s : Text)
    → to_ascii_lowercase (trim_end_matches (λ c. c == b'.') (to_ascii_uppercase s))
      ≡ to_ascii_lowercase (trim_end_matches (λ c. c == b'.') s)
unfolding to_ascii_uppercase
canonical_text-upper s =
    ap to_ascii_lowercase (trim_dots-upper s)
    ∙ lowercase-uppercase (trim_end_matches (λ c. c == b'.') s)

trim_dots-append_dot :
    (s : Text)
    → trim_end_matches (λ c. c == b'.') (s ++ codes ".") ≡ trim_end_matches (λ c. c == b'.') s
unfolding trim_end_matches
trim_dots-append_dot [] = refl
trim_dots-append_dot (c ∷ s) = rw (trim_dots-append_dot s)

-- The canonical form of a domain does not depend on the case of its letters or on dots at its end.
pub canonical_domain_spelling :
    (name : Text)
    → (canonical_domain (to_ascii_uppercase name) ≡ canonical_domain name)
      × (canonical_domain (name ++ codes ".") ≡ canonical_domain name)
unfolding canonical_domain
canonical_domain_spelling name =
    (rw (canonical_text-upper, canonical_domain), rw trim_dots-append_dot)
