-- ===== src/Assessment/Executor/Secrets.antt =====
-- The secret of an identity goes into the live headers alone.
use rust_forge.Base.{
  true, false, ◌⊎◌, inl, inr, Option-cases, ◌≡◌, refl, List, Option, none, some, Result, ok, err,
}
use rust_forge.Text.{Text}
use rust_forge.Assessment.Policy.{ReplayHeader}
use rust_forge.Assessment.Executor.{
  identity_available, identity_missing, with_identity, ExecuteError, RuntimeIdentity,
  AssessmentExecutor, RequestHeaders, IdentitySelection, anonymous, identity_a, identity_b,
  identity_headers, live_header, audit_header, request_hash_context, headers,
}

-- The same identity with another secret.
abbrev pub with_secret : Text → RuntimeIdentity → RuntimeIdentity
with_secret s i = record i { secret = s }

abbrev with_secret? : Text → Option RuntimeIdentity → Option RuntimeIdentity
with_secret? s none = none
with_secret? s (some i) = some (with_secret s i)

abbrev pub with_secrets : Text → Text → AssessmentExecutor → AssessmentExecutor
with_secrets s t x = record x {
  identity_a = with_secret? s x.identity_a;
  identity_b = with_secret? t x.identity_b;
}

-- What of the headers is stored or checked: the audit headers and the context of the hash.
abbrev pub audited :
    Result ExecuteError RequestHeaders → Result ExecuteError (List ReplayHeader × Text)
audited (ok h) = ok (h.audit, h.context)
audited (err e) = err e

identity_headers-audited :
    (i : Option RuntimeIdentity) (s : Text) (extra : List ReplayHeader) (o o' : Option Text)
    → audited (identity_headers (with_secret? s i) extra o) ≡ audited (identity_headers i extra o')
unfolding live_header audit_header request_hash_context
identity_headers-audited none s extra o o' = refl
identity_headers-audited (some i) s extra o o' = refl

-- The audit headers, which the policy checks and the run stores, and the context of the request
-- hash are the same whatever the secrets of the identities are and whatever probe value replaces
-- one; so is whether the headers can be built.
pub headers-audited :
    (x : AssessmentExecutor) (selection : IdentitySelection) (extra : List ReplayHeader)
    (s t : Text) (probe probe' : Option Text)
    → audited (headers (with_secrets s t x) selection extra probe)
      ≡ audited (headers x selection extra probe')
unfolding headers
headers-audited x anonymous extra s t p p' = refl
headers-audited x identity_a extra s t p p' = identity_headers-audited x.identity_a s extra p p'
headers-audited x identity_b extra s t p p' = identity_headers-audited x.identity_b t extra p p'

-- The headers of a request can be built exactly where the selected identity is available.
pub headers_of_available :
    (x : AssessmentExecutor) (selection : IdentitySelection) (extra : List ReplayHeader)
    (probe : Option Text)
    → ((identity_available x selection ≡ true)
        × ((h : RequestHeaders) × (headers x selection extra probe ≡ ok h)))
      ⊎ ((identity_available x selection ≡ false)
          × (headers x selection extra probe ≡ err identity_missing))
unfolding headers identity_available
headers_of_available x anonymous extra p = inl (refl, (_, refl))
headers_of_available x identity_a extra p = elim (Option-cases x.identity_a) [
  | inl e ↦ inr (rw e refl, rw e refl)
  | inr (i, e) ↦ inl (rw e refl, (with_identity i extra p, rw e refl))
]
headers_of_available x identity_b extra p = elim (Option-cases x.identity_b) [
  | inl e ↦ inr (rw e refl, rw e refl)
  | inr (i, e) ↦ inl (rw e refl, (with_identity i extra p, rw e refl))
]
