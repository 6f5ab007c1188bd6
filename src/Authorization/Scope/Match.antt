-- ===== src/Authorization/Scope/Match.antt =====
-- What a compiled pattern covers, said without the matcher, and that `authorize_canonical_host`
-- decides it.

use rust_forge.Base.{
  ◌≡◌, refl, ap, ◌∙◌, ◌⊎◌, inl, inr, Bool, true, false, List, [], ◌∷◌, ◌++◌, Option, none, some,
  Result, ok, err, arith, is_some_and, All, Any, Bool-cases, Option-cases,
}
use rust_forge.Text.{Text, codes, text_eq, strip_prefix, strip_suffix, ends_with}
use rust_forge.Text.Laws.{
  text_eq→eq, text_eq_refl, strip_prefix-append, strip_prefix→append, strip_suffix-append,
  strip_suffix→append, ends_with→append, ends_with-append,
}
use rust_forge.Authorization.{AuthorizationError, empty_scope, out_of_scope}
use rust_forge.Authorization.Scope.{
  ScopeMatchKind, exact, wildcard, ScopeDecision, ScopePattern, ScopePolicy, suffix_hit,
  matches_kind, matches, match_loop, authorize_canonical_host,
}

-- A host is the suffix itself or ends in a dot and the suffix.
abbrev pub UnderSuffix : Text → Text → Type 0
UnderSuffix suffix host = (host ≡ suffix) ⊎ ((front : Text) × (host ≡ front ++ codes "." ++ suffix))

abbrev pub CoversKind : ScopeMatchKind → Text → Text → Type 0
CoversKind exact normalized host = host ≡ normalized
CoversKind wildcard normalized host =
    (suffix : Text) × (normalized ≡ codes "*." ++ suffix) × UnderSuffix suffix host

abbrev pub Covers : ScopePattern → Text → Type 0
Covers p host = CoversKind p.kind p.normalized host

-- What the `expect` of the matcher relies on.
abbrev pub StarKind : ScopeMatchKind → Text → Type 0
StarKind exact normalized = Unit
StarKind wildcard normalized = (suffix : Text) × (normalized ≡ codes "*." ++ suffix)

abbrev pub IsCompiled : ScopePattern → Type 0
IsCompiled p = StarKind p.kind p.normalized

suffix_hit-UnderSuffix :
    (suffix host : Text) → suffix_hit suffix host ≡ true → UnderSuffix suffix host
unfolding suffix_hit
suffix_hit-UnderSuffix suffix host h = elim (Bool-cases (text_eq host suffix)) [
  | inl same ↦ inl (text_eq→eq host suffix same)
  | inr other ↦
      let dotted : is_some_and (ends_with (codes ".")) (strip_suffix suffix host) ≡ true =
        rw other at h in
      elim (Option-cases (strip_suffix suffix host)) [
        | inl e ↦ let k : false ≡ true = rw e at dotted in cc
        | inr (front, e) ↦
            let ends : ends_with (codes ".") front ≡ true = rw e at dotted in
            let (before, e') = ends_with→append (codes ".") front ends in
            inr (before, strip_suffix→append suffix host e ∙ ap (λ t. t ++ suffix) e')
      ]
]

UnderSuffix-suffix_hit :
    (suffix host : Text) → UnderSuffix suffix host → suffix_hit suffix host ≡ true
unfolding suffix_hit
UnderSuffix-suffix_hit suffix host (inl e) = rw e (rw text_eq_refl)
UnderSuffix-suffix_hit suffix host (inr (front, e)) =
    let stripped : strip_suffix suffix host ≡ some (front ++ codes ".") =
      rw e (strip_suffix-append suffix (front ++ codes ".")) in
    rw stripped (rw ends_with-append (ground arith))

matches_kind-Covers :
    (k : ScopeMatchKind) (n host : Text) → matches_kind k n host ≡ some true → CoversKind k n host
unfolding matches_kind
matches_kind-Covers exact n host h = text_eq→eq host n (ground arith)
matches_kind-Covers wildcard n host h = elim (Option-cases (strip_prefix (codes "*.") n)) [
  | inl e ↦ let k : ◌≡◌ {A = Option Bool} none (some true) = rw e at h in cc
  | inr (suffix, e) ↦
      let hit : some (suffix_hit suffix host) ≡ some true = rw e at h in
      (suffix, strip_prefix→append (codes "*.") n e, suffix_hit-UnderSuffix suffix host (cc))
]

-- A compiled pattern does not panic.
matches_kind-total :
    (k : ScopeMatchKind) (n host : Text)
    → StarKind k n
    → (b : Bool) × (matches_kind k n host ≡ some b)
unfolding matches_kind
matches_kind-total exact n host c = (text_eq host n, refl)
matches_kind-total wildcard n host (suffix, star) =
    let stripped : strip_prefix (codes "*.") n ≡ some suffix =
      rw star (strip_prefix-append (codes "*.") suffix) in
    (suffix_hit suffix host, rw stripped)

Covers-matches_kind :
    (k : ScopeMatchKind) (n host : Text) → CoversKind k n host → matches_kind k n host ≡ some true
unfolding matches_kind
Covers-matches_kind exact n host e = rw e (rw text_eq_refl)
Covers-matches_kind wildcard n host (suffix, star, under) =
    let stripped : strip_prefix (codes "*.") n ≡ some suffix =
      rw star (strip_prefix-append (codes "*.") suffix) in
    rw stripped (ap some (UnderSuffix-suffix_hit suffix host under))

matches-cases :
    (p : ScopePattern) (host : Text)
    → IsCompiled p
    → (Covers p host × (matches p host ≡ some true))
      ⊎ (¬ Covers p host × (matches p host ≡ some false))
unfolding matches
matches-cases p host c =
    let (b, e) = matches_kind-total p.kind p.normalized host c in
    elim (Bool-cases b) [
      | inl t ↦
          let h : matches_kind p.kind p.normalized host ≡ some true = e ∙ ap some t in
          inl (matches_kind-Covers p.kind p.normalized host h, h)
      | inr f ↦
          let h : matches_kind p.kind p.normalized host ≡ some false = e ∙ ap some f in
          inr (λ cov. cc (h, Covers-matches_kind p.kind p.normalized host cov), h)
    ]

abbrev pub DecidedBy : ScopeDecision → Text → ScopePattern → Type 0
DecidedBy d host p =
    Covers p host
    × (p.normalized ≡ d.matched_scope)
    × (p.kind ≡ d.match_kind)
    × (d.normalized_host ≡ host)

-- What the search over the patterns answers: a decision by a pattern that covers the host, or the
-- given refusal where none does.
abbrev pub Answers :
    Result AuthorizationError ScopeDecision → AuthorizationError → List ScopePattern → Text → Type 0
Answers r refusal ps host =
    ((d : ScopeDecision) × (r ≡ ok d) × Any (DecidedBy d host) ps)
    ⊎ ((r ≡ err refusal) × ¬ Any (λ p. Covers p host) ps)

match_loop-Answers :
    (ps : List ScopePattern) (host : Text)
    → All IsCompiled ps
    → Answers (match_loop ps host) (out_of_scope host) ps host
unfolding match_loop
match_loop-Answers [] host c = inr (refl, λ h. h)
match_loop-Answers (p ∷ ps) host (c, cs) = elim (matches-cases p host c) [
  | inl (cov, e) ↦
      let d : ScopeDecision = record {
        normalized_host = host;
        matched_scope = p.normalized;
        match_kind = p.kind;
      } in
      inl (d, rw (e, match_loop), inl (cov, refl, refl, refl))
  | inr (not_cov, e) ↦
      let ih : Answers (match_loop ps host) (out_of_scope host) ps host =
        match_loop-Answers ps host cs in
      elim ih [
        | inl (d, r, later) ↦ inl (d, rw (e, match_loop) r, inr later)
        | inr (r, nowhere) ↦
            inr (rw (e, match_loop) r, λ h. elim h [ inl x ↦ not_cov x | inr y ↦ nowhere y ])
      ]
]

abbrev pub refusal_of : List ScopePattern → Text → AuthorizationError
refusal_of [] host = empty_scope
refusal_of (_ ∷ _) host = out_of_scope host

authorize_list :
    (ps : List ScopePattern) (host : Text)
    → All IsCompiled ps
    → Answers
        (authorize_canonical_host (record { patterns = ps }) host)
        (refusal_of ps host)
        ps
        host
unfolding authorize_canonical_host
authorize_list [] host c = inr (refl, λ h. h)
authorize_list (p ∷ ps) host c = match_loop-Answers (p ∷ ps) host c

-- A policy of compiled patterns decides each canonical host exactly: it authorizes it, by a pattern
-- that covers it and with that pattern in the decision, or refuses it where no pattern does. An
-- empty policy refuses with EMPTY_SCOPE, any other with OUT_OF_SCOPE; it never panics.
pub authorize_canonical_host-Answers :
    (policy : ScopePolicy) (host : Text)
    → All IsCompiled policy.patterns
    → Answers
        (authorize_canonical_host policy host)
        (refusal_of policy.patterns host)
        policy.patterns
        host
authorize_canonical_host-Answers policy host c = authorize_list policy.patterns host c
