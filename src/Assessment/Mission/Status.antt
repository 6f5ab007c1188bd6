-- ===== src/Assessment/Mission/Status.antt =====
-- src-tauri/src/assessment/model.rs: the statuses of a mission and of a run, the autonomy modes and
-- the budget profiles, with the texts that the database keeps for them.
use rust_forge.Base.{ℕ, Bool, true, false, Result, ok, err, if◌then◌else◌, ◌==◌, List, [], ◌∷◌}
use rust_forge.Text.{Text, codes, text_eq}

pub data MissionStatus : Type 0 where
  draft : MissionStatus
  awaiting_context_approval : MissionStatus
  queued : MissionStatus
  discovering : MissionStatus
  planning : MissionStatus
  awaiting_action_approval : MissionStatus
  executing : MissionStatus
  verifying : MissionStatus
  awaiting_manual_handoff : MissionStatus
  completed : MissionStatus
  stopped : MissionStatus
  cancelled : MissionStatus
  failed : MissionStatus
  interrupted : MissionStatus

-- `as_str`
abbrev pub mission_text : MissionStatus → Text
mission_text draft = codes "draft"
mission_text awaiting_context_approval = codes "awaiting_context_approval"
mission_text queued = codes "queued"
mission_text discovering = codes "discovering"
mission_text planning = codes "planning"
mission_text awaiting_action_approval = codes "awaiting_action_approval"
mission_text executing = codes "executing"
mission_text verifying = codes "verifying"
mission_text awaiting_manual_handoff = codes "awaiting_manual_handoff"
mission_text completed = codes "completed"
mission_text stopped = codes "stopped"
mission_text cancelled = codes "cancelled"
mission_text failed = codes "failed"
mission_text interrupted = codes "interrupted"

pub data StatusError : Type 0 where
  unknown_status : Text → StatusError
  unknown_autonomy_mode : Text → StatusError
  unknown_budget_profile : Text → StatusError

-- The arms of a `match` on a text, tried in turn.
unfoldable pub match_text :
    {A : Type 0} → List (Text × A) → StatusError → Text → Result StatusError A
match_text [] e value = err e
match_text (arm ∷ arms) e value = if text_eq arm.0 value then ok arm.1 else match_text arms e value

unfoldable pub parse_mission_status : Text → Result StatusError MissionStatus
parse_mission_status value =
    match_text
      ((codes "draft", draft)
        ∷ (codes "awaiting_context_approval", awaiting_context_approval)
        ∷ (codes "queued", queued)
        ∷ (codes "discovering", discovering)
        ∷ (codes "planning", planning)
        ∷ (codes "awaiting_action_approval", awaiting_action_approval)
        ∷ (codes "executing", executing)
        ∷ (codes "verifying", verifying)
        ∷ (codes "awaiting_manual_handoff", awaiting_manual_handoff)
        ∷ (codes "completed", completed)
        ∷ (codes "stopped", stopped)
        ∷ (codes "cancelled", cancelled)
        ∷ (codes "failed", failed)
        ∷ (codes "interrupted", interrupted)
        ∷ [])
      (unknown_status value) value

abbrev pub is_waiting : MissionStatus → Bool
is_waiting draft = true
is_waiting awaiting_context_approval = true
is_waiting awaiting_action_approval = true
is_waiting awaiting_manual_handoff = true
is_waiting _ = false

abbrev pub is_network_active : MissionStatus → Bool
is_network_active discovering = true
is_network_active planning = true
is_network_active executing = true
is_network_active verifying = true
is_network_active _ = false

abbrev pub is_terminal : MissionStatus → Bool
is_terminal completed = true
is_terminal stopped = true
is_terminal cancelled = true
is_terminal failed = true
is_terminal interrupted = true
is_terminal _ = false

-- The place of a status in the enumeration, which the derived `==` compares.
abbrev pub place : MissionStatus → ℕ
place draft = 0
place awaiting_context_approval = 1
place queued = 2
place discovering = 3
place planning = 4
place awaiting_action_approval = 5
place executing = 6
place verifying = 7
place awaiting_manual_handoff = 8
place completed = 9
place stopped = 10
place cancelled = 11
place failed = 12
place interrupted = 13

abbrev pub status_eq : MissionStatus → MissionStatus → Bool
status_eq s t = place s == place t

pub data AutonomyMode : Type 0 where
  manual : AutonomyMode
  smart : AutonomyMode
  automatic : AutonomyMode

abbrev pub autonomy_text : AutonomyMode → Text
autonomy_text manual = codes "manual"
autonomy_text smart = codes "smart"
autonomy_text automatic = codes "automatic"

unfoldable pub parse_autonomy_mode : Text → Result StatusError AutonomyMode
parse_autonomy_mode value =
    match_text
      ((codes "manual", manual) ∷ (codes "smart", smart) ∷ (codes "automatic", automatic) ∷ [])
      (unknown_autonomy_mode value) value

pub data BudgetProfile : Type 0 where
  quick : BudgetProfile
  standard : BudgetProfile
  deep : BudgetProfile

abbrev pub profile_text : BudgetProfile → Text
profile_text quick = codes "quick"
profile_text standard = codes "standard"
profile_text deep = codes "deep"

unfoldable pub parse_budget_profile : Text → Result StatusError BudgetProfile
parse_budget_profile value =
    match_text ((codes "quick", quick) ∷ (codes "standard", standard) ∷ (codes "deep", deep) ∷ [])
      (unknown_budget_profile value) value

abbrev pub limits : BudgetProfile → ℕ × ℕ
limits quick = (40, 2)
limits standard = (120, 4)
limits deep = (300, 6)
