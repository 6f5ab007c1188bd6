-- ===== src/Assessment/Outcome.antt =====
-- src-tauri/src/assessment/outcome.rs: how the outcome of a verifier is committed to the findings.
-- The transaction is a function of the store. The fingerprint of a finding (SHA-256), the rows that a
-- check is linked to and the evidence that evidence/service.rs inserts are the record `World`. A row
-- starts with the status that the default of its table gives it, and the triggers on findings and on
-- accepted evidence are written out. Titles, notes, times and hashes are left out.
pub mod Human
pub mod Cited
use rust_forge.Base.{
  ℕ, ◌+◌, suc, Bool, true, false, not, ◌&&◌, ◌||◌, List, [], ◌∷◌, ◌++◌, map, Option, none, some,
  is_some, if◌then◌else◌, Result, ok, err, ◌>>=◌, ◌>>◌, guard, ok_or, map_err, leb, ◌==◌,
}
use rust_forge.Text.{Text, codes, text_eq, decimal}
use rust_forge.Assessment.Planner.{byte_len}
use rust_forge.Assessment.Verifier.Data.{
  AssessmentVerdict, suspected, VerificationOutcome, is_confirmed,
}

pub data FindingStatus : Type 0 where
  pending : FindingStatus
  confirmed : FindingStatus
  rejected : FindingStatus

abbrev pub is_pending : FindingStatus → Bool
is_pending pending = true
is_pending _ = false

abbrev pub is_rejected : FindingStatus → Bool
is_rejected rejected = true
is_rejected _ = false

abbrev pub is_settled : FindingStatus → Bool
is_settled confirmed = true
is_settled _ = false

abbrev pub is_suspected : AssessmentVerdict → Bool
is_suspected suspected = true
is_suspected _ = false

pub record Finding : Type 0 where
  pub id : ℕ
  pub fingerprint : Text
  pub vuln_type : Text
  pub severity : Text
  pub confidence : ℕ
  pub status : FindingStatus
  pub occurrences : ℕ

pub record FindingEvent : Type 0 where
  pub finding_id : ℕ
  pub event_type : Text
  pub old_value : Option Text
  pub new_value : Option Text

pub record FindingEvidence : Type 0 where
  pub finding_id : ℕ
  pub evidence_id : ℕ
  pub verification_id : ℕ
  pub accepted : Bool

pub record Verification : Type 0 where
  pub id : ℕ
  pub check_id : ℕ
  pub verdict : AssessmentVerdict

pub record FindingLink : Type 0 where
  pub verification_id : ℕ
  pub finding_id : ℕ
  pub relation : Text

-- `Store` has the next ids, since a row gets the one after the last.
pub record Store : Type 0 where
  pub verifications : List Verification
  pub findings : List Finding
  pub finding_events : List FindingEvent
  pub finding_links : List FindingLink
  pub finding_evidence : List FindingEvidence
  -- the verifications whose commit an event of the run tells
  pub committed : List ℕ
  pub next_verification_id : ℕ
  pub next_finding_id : ℕ

pub record VerificationCommitInput : Type 0 where
  pub check_id : ℕ
  pub template_id : Text
  pub verifier_version : Text
  pub outcome : VerificationOutcome

pub record VerificationCommitResult : Type 0 where
  pub verification_id : ℕ
  pub finding_id : Option ℕ
  pub finding_created : Bool
  pub finding_confirmed : Bool
  pub human_conflict : Bool
  pub evidence_id : Option ℕ

pub data CommitError : Type 0 where
  actor_too_long : CommitError
  wrong_context : CommitError
  replay_not_linked : CommitError
  evidence_refused : Text → CommitError
  no_evidence : CommitError
  not_qualified : CommitError

pub record World : Type 0 where
  -- the origin of the run, if the check is of the run, the project and the template
  pub exact_origin : Option Text
  pub fingerprint : (exact_origin : Text) → Text
  pub replay_linked : ℕ → Bool
  -- the id of the new evidence, and `qualifies_for_confirmation`
  pub insert_evidence : ℕ → Result Text (ℕ × Bool)

abbrev pub actor_of : VerificationCommitInput → Text
actor_of input =
    codes "safe_verifier:" ++ (input.template_id ++ codes "@" ++ input.verifier_version)

abbrev pub creates_finding : AssessmentVerdict → Bool
creates_finding verdict = is_confirmed verdict || is_suspected verdict

unfoldable pub existing_finding : Text → List Finding → Option Finding
existing_finding fingerprint [] = none
existing_finding fingerprint (f ∷ findings) =
    let rest = existing_finding fingerprint findings in
    if text_eq f.fingerprint fingerprint then some f else rest

abbrev pub seen_again : ℕ → Finding → Finding
seen_again id f = if f.id == id then record f { occurrences = suc f.occurrences } else f

abbrev pub confirmed_at : ℕ → Finding → Finding
confirmed_at id f = if f.id == id then record f { status = confirmed } else f

abbrev pub append_finding_event :
    ℕ → Text → (old_value new_value : Option Text) → List FindingEvent → List FindingEvent
append_finding_event finding_id event_type old_value new_value events =
    events
    ++ record {
      finding_id = finding_id;
      event_type = event_type;
      old_value = old_value;
      new_value = new_value;
    }
      ∷ []

abbrev pub insert_verification : VerificationCommitInput → Store → Store
insert_verification input store =
    let row : Verification = record {
      id = store.next_verification_id;
      check_id = input.check_id;
      verdict = input.outcome.verdict;
    } in
    record store {
      verifications = store.verifications ++ row ∷ [];
      next_verification_id = suc store.next_verification_id;
    }

-- The finding that the outcome is about, after the insert or the update.
pub record Target : Type 0 where
  pub finding_id : ℕ
  pub status : FindingStatus
  pub created : Bool

abbrev pub new_finding : VerificationCommitInput → Text → ℕ → Finding
new_finding input fingerprint id = record {
  id = id;
  fingerprint = fingerprint;
  vuln_type = input.outcome.vuln_type;
  severity = input.outcome.severity;
  confidence = input.outcome.confidence;
  status = pending;
  occurrences = 1;
}

-- A trigger adds the event `created` of a new finding.
abbrev pub target_of : VerificationCommitInput → Text → Option Finding → Store → Store × Target
target_of input fingerprint (some f) store = (
  record store { findings = map (seen_again f.id) store.findings },
  record { finding_id = f.id; status = f.status; created = false },
)
target_of input fingerprint none store =
    let id = store.next_finding_id in
    (
      record store {
        findings = store.findings ++ new_finding input fingerprint id ∷ [];
        finding_events =
            append_finding_event id (codes "created") none (some (codes "pending"))
              store.finding_events;
        next_finding_id = suc id;
      },
      record { finding_id = id; status = pending; created = true },
    )

abbrev pub link_finding : ℕ → Target → Store → Store
link_finding verification_id target store =
    let row : FindingLink = record {
      verification_id = verification_id;
      finding_id = target.finding_id;
      relation = if is_rejected target.status then codes "human_conflict" else codes "supports";
    } in
    record store { finding_links = store.finding_links ++ row ∷ [] }

abbrev pub add_evidence : (finding_id verification_id evidence_id : ℕ) → Store → Store
add_evidence finding_id verification_id evidence_id store =
    let row : FindingEvidence = record {
      finding_id = finding_id;
      evidence_id = evidence_id;
      verification_id = verification_id;
      accepted = false;
    } in
    record store { finding_evidence = store.finding_evidence ++ row ∷ [] }

-- The evidence of the outcome, with whether it qualifies.
unfoldable pub evidence_of :
    World → VerificationCommitInput → Option ℕ → Result CommitError (Option (ℕ × Bool))
evidence_of world input none =
    if is_confirmed input.outcome.verdict then err no_evidence else ok none
evidence_of world input (some replay_run_id) = do
  guard (world.replay_linked replay_run_id) replay_not_linked
  evidence ← map_err evidence_refused (world.insert_evidence replay_run_id)
  ok (some evidence)

abbrev pub accept : (finding_id evidence_id : ℕ) → FindingEvidence → FindingEvidence
accept finding_id evidence_id row =
    if row.finding_id == finding_id && row.evidence_id == evidence_id
    then record row { accepted = true }
    else row

abbrev pub evidence_value : ℕ → Text → Text
evidence_value evidence_id word = codes "evidence:" ++ (decimal evidence_id ++ codes ":" ++ word)

abbrev pub accept_evidence : (finding_id evidence_id : ℕ) → Store → Store
accept_evidence finding_id evidence_id store = record store {
  finding_evidence = map (accept finding_id evidence_id) store.finding_evidence;
  finding_events =
      append_finding_event finding_id (codes "evidence_accepted")
        (some (evidence_value evidence_id (codes "unaccepted")))
        (some (evidence_value evidence_id (codes "accepted"))) store.finding_events;
}

abbrev pub confirm_finding : Target → Store → Store
confirm_finding target store =
    if is_pending target.status
    then record store {
      findings = map (confirmed_at target.finding_id) store.findings;
      finding_events =
          append_finding_event target.finding_id (codes "status_changed") (some (codes "pending"))
            (some (codes "confirmed")) store.finding_events;
    }
    else store

abbrev pub should_confirm : AssessmentVerdict → Target → Bool
should_confirm verdict target = is_confirmed verdict && not (is_rejected target.status)

-- What is done with the evidence; a trigger refuses to accept evidence that does not qualify.
unfoldable pub with_evidence :
    AssessmentVerdict
    → Target
    → (verification_id : ℕ) → Option (ℕ × Bool)
    → Store
    → Result CommitError Store
with_evidence verdict target verification_id none store = ok store
with_evidence verdict target verification_id (some (evidence_id, qualifies)) store =
    let added = add_evidence target.finding_id verification_id evidence_id store in
    if should_confirm verdict target
    then guard qualifies not_qualified
      >> ok (confirm_finding target (accept_evidence target.finding_id evidence_id added))
    else ok added

abbrev pub committed_event : ℕ → Store → Store
committed_event verification_id store = record store {
  committed = store.committed ++ verification_id ∷ [];
}

abbrev pub evidence_id_of : Option (ℕ × Bool) → Option ℕ
evidence_id_of none = none
evidence_id_of (some (evidence_id, _)) = some evidence_id

unfoldable pub commit_finding :
    World
    → VerificationCommitInput
    → Text
    → (verification_id : ℕ) → Store
    → Result CommitError (Store × VerificationCommitResult)
commit_finding world input fingerprint verification_id store =
    let found = target_of input fingerprint (existing_finding fingerprint store.findings) store in
    let target = found.1 in
    let linked = link_finding verification_id target found.0 in
    do
      evidence ← evidence_of world input input.outcome.evidence_replay_run_id
      done ← with_evidence input.outcome.verdict target verification_id evidence linked
      ok (
        committed_event verification_id done,
        record {
          verification_id = verification_id;
          finding_id = some target.finding_id;
          finding_created = target.created;
          finding_confirmed =
              should_confirm input.outcome.verdict target
              && is_some evidence
              && not (is_settled target.status);
          human_conflict = is_rejected target.status;
          evidence_id = evidence_id_of evidence;
        },
      )

unfoldable pub commit_verification_outcome :
    World → VerificationCommitInput → Store → Result CommitError (Store × VerificationCommitResult)
commit_verification_outcome world input store =
    let inserted = insert_verification input store in
    let id = store.next_verification_id in
    do
      guard (leb (byte_len (actor_of input)) 120) actor_too_long
      exact_origin ← ok_or world.exact_origin wrong_context
      if creates_finding input.outcome.verdict
          then commit_finding world input (world.fingerprint exact_origin) id inserted
          else ok (
            committed_event id inserted,
            record {
              verification_id = id;
              finding_id = none;
              finding_created = false;
              finding_confirmed = false;
              human_conflict = false;
              evidence_id = none;
            },
          )
