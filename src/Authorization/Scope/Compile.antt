-- ===== src/Authorization/Scope/Compile.antt =====
-- What `ScopePolicy::new` compiles: every pattern is one that the matcher can read, and no two
-- have the same text.

use rust_forge.Base.{
  ◌≡◌, ◌≢◌, refl, sym, inl, inr, Bool, true, false, List, [], ◌∷◌, ◌++◌, Option, none, some, ok,
  arith, All, All-append, Ensures, Ensures-ok, Ensures-err, Ensures-bind, Ensures-guard, Bool-cases,
}
use rust_forge.Text.{Text, text_eq, trim, is_empty}
use rust_forge.Text.Laws.{text_eq-false}
use rust_forge.Authorization.Url.{UrlLib}
use rust_forge.Authorization.Scope.{
  ScopePattern, ScopePolicy, HostKind, domain_host, ip_host, CanonicalHost,
  authorize_canonical_host,
}
use rust_forge.Authorization.Scope.Pattern.{
  is_seen, push_new, push_found, with_scheme, wildcard_pattern, pattern_of_entry, pattern_of_host,
  normalize_parseable, normalize_scope_pattern, compile, new,
}
use rust_forge.Authorization.Scope.Match.{
  IsCompiled, Answers, refusal_of, authorize_canonical_host-Answers,
}

-- Each text stands once.
abbrev pub IsDistinct : List ScopePattern → Type 0
IsDistinct [] = Unit
IsDistinct (p ∷ ps) = All (λ q. p.normalized ≢ q.normalized) ps × IsDistinct ps

abbrev pub IsCompiledList : List ScopePattern → Type 0
IsCompiledList ps = All IsCompiled ps × IsDistinct ps

IsDistinct-append_one :
    (ps : List ScopePattern) (p : ScopePattern)
    → IsDistinct ps
    → is_seen ps p.normalized ≡ false
    → IsDistinct (ps ++ p ∷ [])
IsDistinct-append_one [] p d h = (tt, tt)
IsDistinct-append_one (q ∷ ps) p (fresh, d) h =
    let parts : (text_eq p.normalized q.normalized ≡ false) × (is_seen ps p.normalized ≡ false) =
      ground arith in
    (
      All-append _ ps (p ∷ []) fresh (λ e. text_eq-false _ _ parts.0 (sym e), tt),
      IsDistinct-append_one ps p d parts.1,
    )

push_new-IsCompiledList :
    (ps : List ScopePattern) (p : ScopePattern)
    → IsCompiled p
    → IsCompiledList ps
    → IsCompiledList (push_new ps p)
push_new-IsCompiledList ps p c (cs, d) = elim (Bool-cases (is_seen ps p.normalized)) [
  | inl seen ↦ rw seen (cs, d)
  | inr fresh ↦
      rw fresh (All-append IsCompiled ps (p ∷ []) cs (c, tt), IsDistinct-append_one ps p d fresh)
]

abbrev FoundIsCompiled : Option ScopePattern → Type 0
FoundIsCompiled none = Unit
FoundIsCompiled (some p) = IsCompiled p

wildcard_pattern-IsCompiled :
    (k : HostKind) (suffix : Text) → Ensures IsCompiled (wildcard_pattern k suffix)
unfolding wildcard_pattern
wildcard_pattern-IsCompiled domain_host suffix = Ensures-ok _ (suffix, refl)
wildcard_pattern-IsCompiled ip_host suffix = Ensures-err _

module _ {Url : Type 0} (lib : UrlLib Url) where
  pattern_of_host-IsCompiled :
      (star : Bool) (host : CanonicalHost) → Ensures IsCompiled (pattern_of_host lib star host)
  unfolding pattern_of_host
  pattern_of_host-IsCompiled false host = Ensures-ok _ tt
  pattern_of_host-IsCompiled true host = Ensures-bind _ _ λ suffix _.
      Ensures-bind _ _ λ canonical _. wildcard_pattern-IsCompiled canonical.kind canonical.value

  normalize_parseable-IsCompiled : (raw : Text) → Ensures IsCompiled (normalize_parseable lib raw)
  unfolding normalize_parseable
  normalize_parseable-IsCompiled raw = Ensures-bind _ _ λ parts _. Ensures-guard _ _ _ λ _.
      Ensures-guard _ _ _ λ _. Ensures-guard _ _ _ λ _. Ensures-bind _ _ λ url _.
        Ensures-guard _ _ _
          λ _. Ensures-guard _ _ _ λ _. Ensures-bind _ _ λ host _. pattern_of_host-IsCompiled _ host

  pattern_of_entry-IsCompiled :
      (ip : Option Text) (raw : Text) → Ensures FoundIsCompiled (pattern_of_entry lib ip raw)
  unfolding pattern_of_entry
  pattern_of_entry-IsCompiled (some ip) raw = Ensures-ok _ tt
  pattern_of_entry-IsCompiled none raw =
      Ensures-bind _ _
        λ p e. Ensures-ok _ ((normalize_parseable-IsCompiled (with_scheme raw)).at p e)

  normalize_scope_pattern-IsCompiled :
      (raw : Text) → Ensures FoundIsCompiled (normalize_scope_pattern lib raw)
  unfolding normalize_scope_pattern
  normalize_scope_pattern-IsCompiled raw = elim (Bool-cases (is_empty (trim raw))) [
    | inl none_given ↦ rw none_given (Ensures-ok _ tt)
    | inr given ↦ rw given (Ensures-guard _ _ _ λ _. pattern_of_entry-IsCompiled _ _)
  ]

  push_found-IsCompiledList :
      (ps : List ScopePattern) (found : Option ScopePattern)
      → FoundIsCompiled found
      → IsCompiledList ps
      → IsCompiledList (push_found ps found)
  push_found-IsCompiledList ps none c h = h
  push_found-IsCompiledList ps (some p) c h = push_new-IsCompiledList ps p c h

  compile-IsCompiledList :
      (ps : List ScopePattern) (entries : List Text)
      → IsCompiledList ps
      → Ensures IsCompiledList (compile lib ps entries)
  unfolding compile
  compile-IsCompiledList ps [] c = Ensures-ok _ c
  compile-IsCompiledList ps (raw ∷ entries) c = Ensures-bind _ _ λ found e.
      compile-IsCompiledList (push_found ps found) entries
        (push_found-IsCompiledList ps found ((normalize_scope_pattern-IsCompiled raw).at found e) c)

  new-IsCompiledList :
      (entries : List Text)
      → Ensures (λ (policy : ScopePolicy). IsCompiledList policy.patterns) (new lib entries)
  unfolding new
  new-IsCompiledList entries =
      Ensures-bind _ _ λ ps e. Ensures-ok _ ((compile-IsCompiledList [] entries (tt, tt)).at ps e)

  -- Whatever entries compile, no two patterns of the policy have the same text, and the policy
  -- decides each canonical host: it authorizes it by a pattern that covers it, or refuses it with
  -- EMPTY_SCOPE or OUT_OF_SCOPE where none does. The `expect` of the matcher does not panic.
  pub new-Answers :
      (entries : List Text) (policy : ScopePolicy)
      → new lib entries ≡ ok policy
      → IsDistinct policy.patterns
        × ((host : Text)
            → Answers
                (authorize_canonical_host policy host)
                (refusal_of policy.patterns host)
                policy.patterns
                host)
  new-Answers entries policy h =
      let c : IsCompiledList policy.patterns = (new-IsCompiledList entries).at policy h in
      (c.1, λ host. authorize_canonical_host-Answers policy host c.0)
