-- ===== src/Tree/State.antt =====
-- src-tauri/src/tree/state.rs: the statuses of a task and their transitions, node types, priorities
-- and locked fields. The messages of the errors are not modelled.
pub mod Moves
use rust_forge.Base.{
  ℕ, ◌+◌, Bool, true, false, not, ◌&&◌, ◌||◌, List, [], ◌∷◌, ◌++◌, Option, none, some, Result, ok,
  err, ◌>>=◌, ◌>>◌, guard, any, leb, if◌then◌else◌,
}
use rust_forge.Text.{Text, codes, text_eq, one_of, trim, sort_texts}

abbrev pub statuses : List Text
statuses =
    codes "todo"
    ∷ codes "in_progress"
    ∷ codes "done"
    ∷ codes "blocked"
    ∷ codes "skipped"
    ∷ codes "not_applicable"
    ∷ []

abbrev pub node_types : List Text
node_types = codes "hypothesis" ∷ codes "test" ∷ codes "decision" ∷ codes "manual_note" ∷ []

abbrev pub editable_fields : List Text
editable_fields =
    codes "parent"
    ∷ codes "node_type"
    ∷ codes "title"
    ∷ codes "description"
    ∷ codes "why"
    ∷ codes "how_to"
    ∷ codes "verify_criteria"
    ∷ codes "priority"
    ∷ codes "required_role"
    ∷ codes "required_session"
    ∷ codes "expected_observation"
    ∷ codes "actual_observation"
    ∷ codes "prerequisites"
    ∷ codes "standard_references"
    ∷ codes "findings"
    ∷ codes "sort_order"
    ∷ []

pub data StateError : Type 0 where
  unknown_node_type : Text → StateError
  unknown_field : Text → StateError

unfoldable pub validate_node_type : Text → Result StateError (Unit {0})
validate_node_type value = guard (one_of node_types value) (unknown_node_type value)

-- The loop, with the fields that it has kept so far.
unfoldable pub collect_fields : List Text → List Text → Result StateError (List Text)
collect_fields normalized [] = ok normalized
collect_fields normalized (raw ∷ fields) = do
  let field = trim raw
  guard (one_of editable_fields field) (unknown_field field)
  collect_fields (if one_of normalized field then normalized else normalized ++ field ∷ []) fields

unfoldable pub validate_locked_fields : List Text → Result StateError (List Text)
validate_locked_fields fields = do normalized ← collect_fields [] fields; ok (sort_texts normalized)

unfoldable pub status_requires_reason : Text → Bool
status_requires_reason status =
    one_of (codes "blocked" ∷ codes "skipped" ∷ codes "not_applicable" ∷ []) status

unfoldable pub is_terminal : Text → Bool
is_terminal status = one_of (codes "done" ∷ codes "skipped" ∷ codes "not_applicable" ∷ []) status

abbrev pub transitions : List (Text × Text)
transitions =
    (codes "todo", codes "in_progress")
    ∷ (codes "todo", codes "blocked")
    ∷ (codes "todo", codes "skipped")
    ∷ (codes "todo", codes "not_applicable")
    ∷ (codes "in_progress", codes "done")
    ∷ (codes "in_progress", codes "blocked")
    ∷ (codes "in_progress", codes "skipped")
    ∷ (codes "in_progress", codes "not_applicable")
    ∷ (codes "in_progress", codes "todo")
    ∷ (codes "blocked", codes "todo")
    ∷ (codes "blocked", codes "in_progress")
    ∷ (codes "blocked", codes "skipped")
    ∷ (codes "blocked", codes "not_applicable")
    ∷ (codes "skipped", codes "todo")
    ∷ (codes "skipped", codes "not_applicable")
    ∷ (codes "not_applicable", codes "todo")
    ∷ (codes "done", codes "todo")
    ∷ []

abbrev pub is_pair : Text → Text → Text × Text → Bool
is_pair from to p = text_eq from p.0 && text_eq to p.1

unfoldable pub can_transition : Text → Text → Bool
can_transition from to =
    if text_eq from to || not (one_of statuses to) then false else any (is_pair from to) transitions
