-- ===== src/Assessment/Outcome/Human.antt =====
-- src-tauri/src/assessment/outcome.rs: what a commit does to the findings that are there, those that
-- a person has decided among them.
use rust_forge.Base.{
  ℕ, ◌≡◌, ◌⊎◌, inl, inr, refl, ap, sym, subst, ◌∙◌, Bool, true, false, List, [], ◌∷◌, ◌++◌, map,
  Option, none, some, if◌then◌else◌, ok, ◌==◌, Bool-cases, and-eq-true, Ensures, Ensures-ok,
  Ensures-bind, Ensures-guard, Ensures-if, arith, All,
}
use rust_forge.Text.{Text, text_eq}
use rust_forge.Assessment.Verifier.Data.{AssessmentVerdict, is_confirmed}
use rust_forge.Assessment.Outcome.{
  FindingStatus, pending, confirmed, rejected, is_pending, Finding, Store, Target, World,
  VerificationCommitInput, VerificationCommitResult, existing_finding, seen_again, confirmed_at,
  confirm_finding, link_finding, target_of, with_evidence, should_confirm, commit_finding,
  commit_verification_outcome, creates_finding, insert_verification,
}

abbrev pub find_by_id : ℕ → List Finding → Option Finding
find_by_id id [] = none
find_by_id id (f ∷ findings) = if f.id == id then some f else find_by_id id findings

-- The ids are a primary key, and the next one is free.
pub record IsKeyed (store : Store) : Type 0 where
  pub own : All (λ f. find_by_id f.id store.findings ≡ some f) store.findings
  pub free : find_by_id store.next_finding_id store.findings ≡ none

-- The status of a finding that was there: it stays, or a confirmed outcome confirms what was pending.
abbrev pub IsMoved : AssessmentVerdict → Finding → Option Finding → Type 0
IsMoved verdict f after =
    (g : Finding) × (after ≡ some g)
    × ((g.status ≡ f.status)
        ⊎ ((f.status ≡ pending) × (g.status ≡ confirmed) × (is_confirmed verdict ≡ true)))

then_part : {A : Type 0} (t : Bool) (a b c : A) → t ≡ true → (if t then a else b) ≡ c → a ≡ c
then_part true a b c e h = h
then_part false a b c e h = cc

else_part : {A : Type 0} (t : Bool) (a b c : A) → t ≡ false → (if t then a else b) ≡ c → b ≡ c
else_part true a b c e h = cc
else_part false a b c e h = h

some-injective : {A : Type 0} {a b : A} → ◌≡◌ {A = Option A} (some a) (some b) → a ≡ b
some-injective h = cc

abbrev KeepsId : (Finding → Finding) → Type 0
KeepsId change = (f : Finding) → (change f).id ≡ f.id

find_by_id-map :
    (change : Finding → Finding)
    → KeepsId change
    → (id : ℕ) (findings : List Finding) (f : Finding) → find_by_id id findings ≡ some f
    → find_by_id id (map change findings) ≡ some (change f)
find_by_id-map change keeps id [] f h = cc
find_by_id-map change keeps id (g ∷ findings) f h = elim (Bool-cases (g.id == id)) [
  | inl same ↦
      let moved : ((change g).id == id) ≡ true = rw (keeps g) same in
      rw moved ((ap (λ x. some (change x)) (some-injective (then_part _ _ _ _ same h))))
  | inr other ↦
      let moved : ((change g).id == id) ≡ false = rw (keeps g) other in
      rw moved (find_by_id-map change keeps id findings f (else_part _ _ _ _ other h))
]

find_by_id-append :
    (id : ℕ) (findings more : List Finding) (f : Finding)
    → find_by_id id findings ≡ some f
    → find_by_id id (findings ++ more) ≡ some f
find_by_id-append id [] more f h = cc
find_by_id-append id (g ∷ findings) more f h = elim (Bool-cases (g.id == id)) [
  | inl same ↦ rw same (then_part _ _ _ _ same h)
  | inr other ↦ rw other (find_by_id-append id findings more f (else_part _ _ _ _ other h))
]

find_by_id-id :
    (id : ℕ) (findings : List Finding) (f : Finding) → find_by_id id findings ≡ some f → f.id ≡ id
find_by_id-id id [] f h = cc
find_by_id-id id (g ∷ findings) f h = elim (Bool-cases (g.id == id)) [
  | inl same ↦
      let first : g ≡ f = some-injective (then_part _ _ _ _ same h) in
      ap (λ x. x.id) (sym first) ∙ ground arith
  | inr other ↦ find_by_id-id id findings f (else_part _ _ _ _ other h)
]

seen_again-KeepsId : (id : ℕ) → KeepsId (seen_again id)
seen_again-KeepsId id f = ground arith

seen_again-status : (id : ℕ) (f : Finding) → (seen_again id f).status ≡ f.status
seen_again-status id f = ground arith

confirmed_at-KeepsId : (id : ℕ) → KeepsId (confirmed_at id)
confirmed_at-KeepsId id f = ground arith

existing-found :
    (fingerprint : Text) (findings : List Finding) (f : Finding) (P : Finding → Type 0)
    → All P findings
    → existing_finding fingerprint findings ≡ some f
    → P f
unfolding existing_finding
existing-found fingerprint [] f P all h = cc
existing-found fingerprint (g ∷ findings) f P (p, all) h =
    elim (Bool-cases (text_eq g.fingerprint fingerprint)) [
      | inl same ↦ subst P (some-injective (then_part _ _ _ _ same h)) p
      | inr other ↦ existing-found fingerprint findings f P all (else_part _ _ _ _ other h)
    ]

pending_is : (status : FindingStatus) → is_pending status ≡ true → status ≡ pending
pending_is pending h = refl
pending_is confirmed h = cc
pending_is rejected h = cc

confirmed_at-status :
    (id : ℕ) (g : Finding)
    → ((g.id ≡ id) × ((confirmed_at id g).status ≡ confirmed))
      ⊎ ((confirmed_at id g).status ≡ g.status)
confirmed_at-status id g = elim (Bool-cases (g.id == id)) [
  | inl same ↦ inl (ground arith, ground arith)
  | inr other ↦ inr (ground arith)
]

-- What the lookup of a finding finds before the evidence is looked at.
abbrev IsTargeted : ℕ → Finding → Store → Target → Type 0
IsTargeted i f store target =
    ((g : Finding) × (find_by_id i store.findings ≡ some g) × (g.status ≡ f.status))
    × (i ≡ target.finding_id → f.status ≡ target.status)

module _ (verdict : AssessmentVerdict) (i : ℕ) (f : Finding) where
  confirm-Moved :
      (target : Target) (store : Store)
      → IsTargeted i f store target
      → is_confirmed verdict ≡ true
      → IsMoved verdict f (find_by_id i (confirm_finding target store).findings)
  confirm-Moved target store ((g, found, same), status_of) sure =
      let change = confirmed_at target.finding_id in
      elim (Bool-cases (is_pending target.status)) [
        | inl waits ↦ rw waits (
          change g,
          find_by_id-map change (confirmed_at-KeepsId target.finding_id) i store.findings g found,
          elim (confirmed_at-status target.finding_id g) [
            | inl (hit, now) ↦ inr (
              status_of (sym (find_by_id-id i store.findings g found) ∙ hit)
                  ∙ pending_is target.status waits,
              now,
              sure,
            )
            | inr kept ↦ inl (kept ∙ same)
          ],
        )
        | inr shut ↦ rw shut (g, found, inl same)
      ]

  sure_of : (target : Target) → should_confirm verdict target ≡ true → is_confirmed verdict ≡ true
  sure_of target h = (and-eq-true (is_confirmed verdict) _ h).0

  with_evidence-Moved :
      (target : Target) (verification_id : ℕ) (evidence : Option (ℕ × Bool)) (store : Store)
      → IsTargeted i f store target
      → Ensures
          (λ (done : Store). IsMoved verdict f (find_by_id i done.findings))
          (with_evidence verdict target verification_id evidence store)
  unfolding with_evidence
  with_evidence-Moved target v none store ((g, found, same), _) =
      Ensures-ok store (g, found, inl same)
  with_evidence-Moved target v (some (e, q)) store ((g, found, same), status_of) =
      Ensures-if (should_confirm verdict target) _ _
        (λ should. Ensures-guard _ _ _ λ _.
          Ensures-ok _
            (confirm-Moved target _ ((g, found, same), status_of) (sure_of target should)))
        (λ _. Ensures-ok _ (g, found, inl same))

target-Targeted :
    (input : VerificationCommitInput) (fingerprint : Text) (store : Store) (i : ℕ) (f : Finding)
    → IsKeyed store
    → find_by_id i store.findings ≡ some f
    → (o : Option Finding) → existing_finding fingerprint store.findings ≡ o
    → let found = target_of input fingerprint o store in IsTargeted i f found.0 found.1
target-Targeted input fingerprint store i f keyed h (some k) e =
    let own : find_by_id k.id store.findings ≡ some k =
      existing-found fingerprint store.findings k (λ x. find_by_id x.id store.findings ≡ some x)
        keyed.own e in
    (
      (
        seen_again k.id f,
        find_by_id-map (seen_again k.id) (seen_again-KeepsId k.id) i store.findings f h,
        seen_again-status k.id f,
      ),
      λ at.
          let same : f ≡ k =
            some-injective (sym h ∙ ap (λ n. find_by_id n store.findings) at ∙ own) in
          ap (λ x. x.status) same,
    )
target-Targeted input fingerprint store i f keyed h none e = (
  (f, find_by_id-append i store.findings _ f h, refl),
  λ at.
      let gone : ◌≡◌ {A = Option Finding} none (some f) =
        sym keyed.free ∙ ap (λ n. find_by_id n store.findings) (sym at) ∙ h in
      cc,
)

abbrev IsDone : VerificationCommitInput → ℕ → Finding → Store × VerificationCommitResult → Type 0
IsDone input i f done = IsMoved input.outcome.verdict f (find_by_id i done.0.findings)

commit_finding-Moved :
    (world : World) (input : VerificationCommitInput) (fingerprint : Text) (verification_id : ℕ)
    (store : Store) (i : ℕ) (f : Finding)
    → IsKeyed store
    → find_by_id i store.findings ≡ some f
    → Ensures (IsDone input i f) (commit_finding world input fingerprint verification_id store)
unfolding commit_finding
commit_finding-Moved world input fingerprint v store i f keyed h =
    let found = target_of input fingerprint (existing_finding fingerprint store.findings) store in
    let linked = link_finding v found.1 found.0 in
    let targeted = target-Targeted input fingerprint store i f keyed h _ refl in
    Ensures-bind _ _ λ evidence _. Ensures-bind _ _ λ done e.
      Ensures-ok _ (
        (with_evidence-Moved input.outcome.verdict i f found.1 v evidence linked targeted).at done
          e)

committed-Moved :
    (world : World) (input : VerificationCommitInput) (store : Store) (i : ℕ) (f : Finding)
    → IsKeyed store
    → find_by_id i store.findings ≡ some f
    → Ensures (IsDone input i f) (commit_verification_outcome world input store)
unfolding commit_verification_outcome
committed-Moved world input store i f keyed h =
    let inserted = insert_verification input store in
    let keyed_still : IsKeyed inserted = record { own = keyed.own; free = keyed.free } in
    Ensures-guard _ _ _ λ _. Ensures-bind _ _ λ origin _.
      Ensures-if (creates_finding input.outcome.verdict)
        (commit_finding world input (world.fingerprint origin) store.next_verification_id inserted)
        _ (λ _. commit_finding-Moved world input _ _ inserted i f keyed_still h)
        (λ _. Ensures-ok _ (f, h, inl refl))

-- A commit keeps each finding that was there, and its status with it, but for a pending one, which an
-- outcome that is confirmed may confirm; so what a person has rejected stays rejected. The ids of
-- the findings are a key and the next one is free.
pub commit_verification_outcome-Moved :
    (world : World) (input : VerificationCommitInput) (store : Store)
    → IsKeyed store
    → (done : Store) (result : VerificationCommitResult)
    → commit_verification_outcome world input store ≡ ok (done, result)
    → (i : ℕ) (f : Finding) → find_by_id i store.findings ≡ some f
    → IsMoved input.outcome.verdict f (find_by_id i done.findings)
commit_verification_outcome-Moved world input store keyed done result e i f h =
    (committed-Moved world input store i f keyed h).at (done, result) e
