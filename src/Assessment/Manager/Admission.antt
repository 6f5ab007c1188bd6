-- ===== src/Assessment/Manager/Admission.antt =====
-- Admission over any sequence of calls.
use rust_forge.Base.{
  ℕ, ◌≡◌, ◌⊎◌, Bool, true, false, List, [], ◌∷◌, none, some, ok, err, arith, ◌==◌, ◌&&◌,
  if◌then◌else◌,
}
use rust_forge.Assessment.Manager.{
  assessment_busy, assessment_not_active, AssessmentManager, claim, cancel, release,
  active_run_for_project,
}

-- The calls that reach the manager.
pub data Call : Type 0 where
  claims : ℕ → ℕ → Call
  cancels : Bool → ℕ → ℕ → Call
  releases : ℕ → Call

pub serve : AssessmentManager → Call → AssessmentManager × Bool
serve m (claims p r) =
    let (m', reply) = claim p r m in (m', elim reply [ ok _ ↦ true | err _ ↦ false ])
serve m (cancels l p r) =
    let (m', reply) = cancel l p r m in (m', elim reply [ ok _ ↦ true | err _ ↦ false ])
serve m (releases r) = (release r m, true)

pub serve_all : AssessmentManager → List Call → AssessmentManager
serve_all m [] = m
serve_all m (c ∷ cs) = serve_all (serve m c).0 cs

abbrev is_release_of : ℕ → Call → Bool
is_release_of run (releases r) = run == r
is_release_of run _ = false

abbrev pub NoRelease : ℕ → List Call → Type 0
NoRelease run [] = Unit
NoRelease run (c ∷ cs) = (is_release_of run c ≡ false) × NoRelease run cs

abbrev pub Holds : ℕ → ℕ → AssessmentManager → Type 0
Holds project run m =
    (b : Bool) × (m.active ≡ some (record { project_id = project; run_id = run; cancel = b }))

Holds-serve :
    (project run : ℕ) (m : AssessmentManager) (c : Call)
    → is_release_of run c ≡ false
    → Holds project run m
    → Holds project run (serve m c).0
unfolding serve claim cancel release
Holds-serve project run m (claims p r) n (b, h) = (b, ground arith)
Holds-serve project run m (cancels l p r) n (b, h) =
    (if (project == p && run == r) && l then true else b, ground arith)
Holds-serve project run m (releases r) n (b, h) = (b, ground arith)

Holds-serve_all :
    (project run : ℕ) (m : AssessmentManager) (cs : List Call)
    → NoRelease run cs
    → Holds project run m
    → Holds project run (serve_all m cs)
unfolding serve_all
Holds-serve_all project run m [] n h = h
Holds-serve_all project run m (c ∷ cs) (n, ns) h =
    Holds-serve_all project run (serve m c).0 cs ns (Holds-serve project run m c n h)

claim-Holds :
    (project run : ℕ) (m : AssessmentManager)
    → m.active ≡ none
    → Holds project run (claim project run m).0
unfolding claim
claim-Holds project run m h = (false, ground arith)

claim_busy :
    (project run p r : ℕ) (m : AssessmentManager)
    → Holds project run m
    → claim p r m ≡ (m, err (assessment_busy run))
unfolding claim
claim_busy project run p r m (b, h) = ground arith

release_frees :
    (project run : ℕ) (m : AssessmentManager) → Holds project run m → (release run m).active ≡ none
unfolding release
release_frees project run m (b, h) = ground arith

active_of_Holds :
    (project run : ℕ) (m : AssessmentManager)
    → Holds project run m
    → active_run_for_project project m ≡ some run
unfolding active_run_for_project
active_of_Holds project run m (b, h) = ground arith

-- A run that claims the free slot holds it through any calls that do not release that very run:
-- every claim in between is refused with ASSESSMENT_BUSY and its run id, and changes nothing. Its
-- release frees the slot, and the next claim holds it.
pub claim_excludes :
    (project run project' run' : ℕ) (m : AssessmentManager) (calls : List Call)
    → m.active ≡ none
    → NoRelease run calls
    → let later = serve_all (claim project run m).0 calls in
      (claim project' run' later ≡ (later, err (assessment_busy run)))
      × (active_run_for_project project later ≡ some run)
      × Holds project' run' (claim project' run' (release run later)).0
claim_excludes project run project' run' m calls free kept =
    let later = serve_all (claim project run m).0 calls in
    let holds =
      Holds-serve_all project run (claim project run m).0 calls kept
        (claim-Holds project run m free) in
    (
      claim_busy project run project' run' later holds,
      active_of_Holds project run later holds,
      claim-Holds project' run' (release run later) (release_frees project run later holds),
    )

-- While a run holds the slot, a cancel call either names that run and its project and sets its
-- flag, or is refused and changes nothing.
pub cancel_of_Holds :
    (project run : ℕ) (listening : Bool) (p r : ℕ) (m : AssessmentManager)
    → Holds project run m
    → ((p ≡ project)
        × (r ≡ run)
        × (listening ≡ true)
        × ((cancel listening p r m).0.active
            ≡ some (record { project_id = project; run_id = run; cancel = true }))
        × ((cancel listening p r m).1 ≡ ok tt))
      ⊎ (cancel listening p r m ≡ (m, err assessment_not_active))
unfolding cancel
cancel_of_Holds project run listening p r m (b, h) = ground arith
