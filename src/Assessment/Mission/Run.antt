-- ===== src/Assessment/Mission/Run.antt =====
-- src-tauri/src/assessment/model.rs: the status of a run of the executor, and the status of the
-- mission that mirrors it (the `match` of `sync_from_run_on` in mission.rs).
use rust_forge.Base.{Bool, true, false, not, [], ◌∷◌, Result}
use rust_forge.Text.{Text, codes}
use rust_forge.Assessment.Mission.Status.{MissionStatus, StatusError, unknown_status, match_text}

pub data AssessmentStatus : Type 0 where
  queued : AssessmentStatus
  discovering : AssessmentStatus
  planning : AssessmentStatus
  executing : AssessmentStatus
  verifying : AssessmentStatus
  completed : AssessmentStatus
  stopped : AssessmentStatus
  cancelled : AssessmentStatus
  failed : AssessmentStatus
  interrupted : AssessmentStatus

-- `as_str`
abbrev pub run_text : AssessmentStatus → Text
run_text queued = codes "queued"
run_text discovering = codes "discovering"
run_text planning = codes "planning"
run_text executing = codes "executing"
run_text verifying = codes "verifying"
run_text completed = codes "completed"
run_text stopped = codes "stopped"
run_text cancelled = codes "cancelled"
run_text failed = codes "failed"
run_text interrupted = codes "interrupted"

unfoldable pub parse_run_status : Text → Result StatusError AssessmentStatus
parse_run_status value =
    match_text
      ((codes "queued", queued)
        ∷ (codes "discovering", discovering)
        ∷ (codes "planning", planning)
        ∷ (codes "executing", executing)
        ∷ (codes "verifying", verifying)
        ∷ (codes "completed", completed)
        ∷ (codes "stopped", stopped)
        ∷ (codes "cancelled", cancelled)
        ∷ (codes "failed", failed)
        ∷ (codes "interrupted", interrupted)
        ∷ [])
      (unknown_status value) value

abbrev pub is_active : AssessmentStatus → Bool
is_active queued = true
is_active discovering = true
is_active planning = true
is_active executing = true
is_active verifying = true
is_active _ = false

abbrev pub is_terminal : AssessmentStatus → Bool
is_terminal s = not (is_active s)

abbrev pub is_completed : AssessmentStatus → Bool
is_completed completed = true
is_completed _ = false

abbrev pub mirrored : AssessmentStatus → MissionStatus
mirrored queued = MissionStatus.queued
mirrored discovering = MissionStatus.discovering
mirrored planning = MissionStatus.planning
mirrored executing = MissionStatus.executing
mirrored verifying = MissionStatus.verifying
mirrored completed = MissionStatus.completed
mirrored stopped = MissionStatus.stopped
mirrored cancelled = MissionStatus.cancelled
mirrored failed = MissionStatus.failed
mirrored interrupted = MissionStatus.interrupted
