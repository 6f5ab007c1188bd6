-- ===== src/Assessment/Outcome/Cited.antt =====
-- src-tauri/src/assessment/outcome.rs and verifier.rs together: an outcome of a verifier cites the
-- evidence that its commit asks for.
use rust_forge.Base.{
  ℕ, ◌≡◌, ◌≢◌, refl, sym, ◌∙◌, Bool, true, false, Option, none, some, if◌then◌else◌, Result, ok,
  err, ◌>>=◌, ◌>>◌, guard, ok_or, map_err, Bool-cases, inl, inr,
}
use rust_forge.Text.{Text}
use rust_forge.Assessment.Verifier.Data.{
  AssessmentVerdict, VerificationOutcome, is_confirmed, UrlReader, AssessmentEndpoint, Responses,
}
use rust_forge.Assessment.Verifier.{verify}
use rust_forge.Assessment.Verifier.Confirmed.{verify-IsBacked}
use rust_forge.Assessment.Outcome.{
  Store, World, Target, VerificationCommitInput, CommitError, no_evidence, actor_too_long,
  wrong_context, replay_not_linked, evidence_refused, not_qualified, evidence_of, with_evidence,
  should_confirm, commit_finding, commit_verification_outcome, creates_finding,
}

-- The result is not the error that evidence is missing.
abbrev Cites : {A : Type 0} → Result CommitError A → Type 0
Cites r = r ≢ err no_evidence

Cites-bind :
    {A B : Type 0} (m : Result CommitError A) (f : A → Result CommitError B)
    → Cites m
    → ((a : A) → Cites (f a))
    → Cites (m >>= f)
unfolding ◌>>=◌
Cites-bind (ok a) f hm hf = hf a
Cites-bind (err actor_too_long) f hm hf = λ e. cc
Cites-bind (err wrong_context) f hm hf = λ e. cc
Cites-bind (err replay_not_linked) f hm hf = λ e. cc
Cites-bind (err (evidence_refused why)) f hm hf = λ e. cc
Cites-bind (err no_evidence) f hm hf = absurd (hm refl)
Cites-bind (err not_qualified) f hm hf = λ e. cc

Cites-guard :
    {B : Type 0} (t : Bool) (e : CommitError) (m : Result CommitError B)
    → ◌≢◌ {A = CommitError} e no_evidence
    → Cites m
    → Cites (guard t e >> m)
unfolding ◌>>=◌
Cites-guard true e m other h = h
Cites-guard false e m other h = λ same. other cc

Cites-if :
    {B : Type 0} (t : Bool) (m n : Result CommitError B)
    → Cites m
    → Cites n
    → Cites (if t then m else n)
Cites-if true m n hm hn = hm
Cites-if false m n hm hn = hn

refused-Cites : {A : Type 0} (r : Result Text A) → Cites (map_err evidence_refused r)
refused-Cites (ok a) = λ e. cc
refused-Cites (err why) = λ e. cc

origin-Cites : (o : Option Text) → Cites (ok_or o wrong_context)
origin-Cites none = λ e. cc
origin-Cites (some origin) = λ e. cc

-- An outcome that is confirmed names a response.
abbrev HasEvidence : VerificationOutcome → Type 0
HasEvidence o = is_confirmed o.verdict ≡ true → (id : ℕ) × (o.evidence_replay_run_id ≡ some id)

evidence_of-Cites :
    (world : World) (input : VerificationCommitInput) (r : Option ℕ)
    → input.outcome.evidence_replay_run_id ≡ r
    → HasEvidence input.outcome
    → Cites (evidence_of world input r)
unfolding evidence_of
evidence_of-Cites world input none e has = elim (Bool-cases (is_confirmed input.outcome.verdict)) [
  | inl sure ↦
      let cited = has sure in
      let gone : ◌≡◌ {A = Option ℕ} none (some cited.0) = sym e ∙ cited.1 in absurd cc
  | inr other ↦ rw other (λ x. cc)
]
evidence_of-Cites world input (some id) e has =
    Cites-guard _ _ _ (λ x. cc)
      (Cites-bind _ _ (refused-Cites (world.insert_evidence id)) (λ evidence x. cc))

with_evidence-Cites :
    (verdict : AssessmentVerdict) (target : Target) (verification_id : ℕ)
    (evidence : Option (ℕ × Bool)) (store : Store)
    → Cites (with_evidence verdict target verification_id evidence store)
unfolding with_evidence
with_evidence-Cites verdict target v none store = λ e. cc
with_evidence-Cites verdict target v (some (id, q)) store =
    Cites-if (should_confirm verdict target) _ _ (Cites-guard _ _ _ (λ x. cc) (λ e. cc)) (λ e. cc)

committed-Cites :
    (world : World) (input : VerificationCommitInput) (store : Store)
    → HasEvidence input.outcome
    → Cites (commit_verification_outcome world input store)
unfolding commit_verification_outcome commit_finding
committed-Cites world input store has =
    Cites-guard _ _ _ (λ x. cc)
      (Cites-bind _ _ (origin-Cites world.exact_origin) (λ origin.
        Cites-if (creates_finding input.outcome.verdict) _ _
          (Cites-bind _ _ (evidence_of-Cites world input _ refl has)
            (λ evidence. Cites-bind _ _ (with_evidence-Cites _ _ _ evidence _) (λ done e. cc)))
          (λ e. cc)))

-- A commit of what `verify` returns never fails for want of evidence.
pub verified_commits_cite :
    {Url : Type 0} (lib : UrlReader Url) (endpoint : AssessmentEndpoint) (responses : Responses)
    (reflection_observed : Bool) (world : World) (check_id : ℕ)
    (template_id verifier_version : Text) (store : Store)
    → commit_verification_outcome world
        (record {
          check_id = check_id;
          template_id = template_id;
          verifier_version = verifier_version;
          outcome = verify lib template_id endpoint responses reflection_observed;
        })
        store
      ≢ err no_evidence
verified_commits_cite lib endpoint responses reflection_observed world check_id template_id version
      store =
    committed-Cites world _ store (λ sure.
      let backed =
        (verify-IsBacked lib template_id endpoint responses reflection_observed sure).0 in
      (backed.response.replay_run_id, backed.evidence))
