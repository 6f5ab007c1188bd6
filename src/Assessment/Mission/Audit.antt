-- ===== src/Assessment/Mission/Audit.antt =====
-- src-tauri/src/assessment/mission.rs: what every operation keeps of a mission: the consent of its
-- actions, the audit trail of its messages, its revisions and its end.
use rust_forge.Base.{
  ◌+◌, ◌≤◌, Bool, true, false, ◌≡◌, refl, sym, ◌∙◌, ap, List, [], ◌∷◌, ◌++◌, length, length-append,
  All, Option, none, some, if◌then◌else◌, arith,
}
use rust_forge.Text.{Text, codes, text_eq}
use rust_forge.Assessment.Mission.Status.{mission_text, is_terminal}
use rust_forge.Assessment.Mission.Data.{MessageEntry, Store}
use rust_forge.Assessment.Mission.Cleared.{HasConsent}

abbrev pub value_or : Text → Option Text → Text
value_or previous none = previous
value_or previous (some value) = value

-- The status after one more message.
abbrev pub status_by : Text → MessageEntry → Text
status_by previous entry =
    if text_eq entry.kind (codes "status") then value_or previous entry.new_value else previous

-- The status that the messages tell, one after the other.
unfoldable pub told : Text → List MessageEntry → Text
told first [] = first
told first (entry ∷ entries) = told (status_by first entry) entries

told-append :
    (first : Text) (entries : List MessageEntry) (entry : MessageEntry)
    → told first (entries ++ entry ∷ []) ≡ status_by (told first entries) entry
unfolding told
told-append first [] entry = refl
told-append first (e ∷ entries) entry = told-append (status_by first e) entries entry

pub record Keeps (s t : Store) : Type 0 where
  pub consent : All HasConsent s.actions → All HasConsent t.actions
  -- a message for every revision
  pub counted : t.mission.revision + length s.messages ≡ s.mission.revision + length t.messages
  pub grows : s.mission.revision ≤ t.mission.revision
  pub audited :
      (first : Text)
      → told first s.messages ≡ mission_text s.mission.status
      → told first t.messages ≡ mission_text t.mission.status
  pub ended : is_terminal s.mission.status ≡ true → t.mission.status ≡ s.mission.status

pub Keeps-trans : (s t u : Store) → Keeps s t → Keeps t u → Keeps s u
Keeps-trans s t u h k = record {
  consent = λ c. k.consent (h.consent c);
  counted = omega (arith, h.counted, k.counted);
  grows = omega (arith, h.grows, k.grows);
  audited = λ first e. k.audited first (h.audited first e);
  ended = λ e. k.ended (ap is_terminal (h.ended e) ∙ e) ∙ h.ended e;
}

-- A change that leaves the status, the revision and the messages alone.
pub Keeps-quiet :
    (s t : Store)
    → t.messages ≡ s.messages
    → t.mission.revision ≡ s.mission.revision
    → t.mission.status ≡ s.mission.status
    → (All HasConsent s.actions → All HasConsent t.actions)
    → Keeps s t
Keeps-quiet s t m r e c =
    let same : length t.messages ≡ length s.messages = ap length m in
    record {
      consent = c;
      counted = omega (arith, r, same);
      grows = omega (arith, r);
      audited = λ first k. ap (told first) m ∙ k ∙ ap mission_text (sym e);
      ended = λ _. e;
    }

-- A change that comes with a message.
pub Keeps-noted :
    (s t : Store) (entry : MessageEntry)
    → t.messages ≡ s.messages ++ entry ∷ []
    → t.mission.revision ≡ s.mission.revision + 1
    → (All HasConsent s.actions → All HasConsent t.actions)
    → status_by (mission_text s.mission.status) entry ≡ mission_text t.mission.status
    → (is_terminal s.mission.status ≡ true → t.mission.status ≡ s.mission.status)
    → Keeps s t
Keeps-noted s t entry m r c e ends =
    let more : length t.messages ≡ length s.messages + 1 =
      ap length m ∙ length-append s.messages (entry ∷ []) in
    record {
      consent = c;
      counted = omega (arith, r, more);
      grows = omega (arith, r);
      audited = λ first k.
          ap (told first) m
          ∙ told-append first s.messages entry
          ∙ ap (λ x. status_by x entry) k
          ∙ e;
      ended = ends;
    }

pub Keeps-refl : (s : Store) → Keeps s s
Keeps-refl s = Keeps-quiet s s refl refl refl (λ c. c)

pub if-Keeps : (s t : Store) (test : Bool) → Keeps s t → Keeps s (if test then t else s)
if-Keeps s t true h = h
if-Keeps s t false h = Keeps-refl s

pub two-Keeps :
    (s : Store) (test : Bool) {t u : Store}
    → Keeps s t
    → Keeps s u
    → Keeps s (if test then t else u)
two-Keeps s true h k = h
two-Keeps s false h k = k
