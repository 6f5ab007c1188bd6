-- ===== src/Tests/Plans.antt =====
-- Test plans and answers of a model at concrete inputs.
use rust_forge.Base.{
  Any, All, ℕ, ◌+◌, ◌<◌, ◌≡◌, ◌↔◌, ◌≢◌, refl, ◌⊎◌, inl, inr, ap, get_elem?, some-injective, suc,
  length-append, true, List, [], ◌∷◌, ◌++◌, none, some, Option, false, Result, ok, err, arith,
  length,
}
use rust_forge.Text.{
  Text, codes, one_of, trim, trim_start_matches, trim_end_matches, strip_prefix, strip_suffix,
  is_whitespace,
}
use rust_forge.Text.Laws.{text_eq-false}
use rust_forge.Text.Utf8.{as_bytes}
use rust_forge.Tree.Forest.{Forest, no_nodes, node_then, ForestError, validate_forest}
use rust_forge.Tree.Forest.Shape.{size, deepest, Fits, PassesBudget, validate_forest-Fits}
use rust_forge.Tree.State.{can_transition, is_terminal}
use rust_forge.Tree.State.Moves.{Moves, stay, move, Visits, done-Visits}
use rust_forge.Tree.Next.{
  TaskNode, climb, ancestors_allow_execution, next_actionable, find_node, prerequisites_satisfied,
  not_after, insert_task, sort_tasks, has_unfinished_child, is_candidate,
}
use rust_forge.Tree.Next.Climb.{ancestors_allow_execution_iff}
use rust_forge.Tree.Next.Order.{candidates_of, NotAfter, next_actionable_first}
use rust_forge.Tree.Next.Sound.{Ancestors, NextAnswers, next_actionable-NextAnswers}
use rust_forge.Ai.Json.{scan, step, balanced_json_end, strip_code_fence, parse_llm_json}
use rust_forge.Ai.Json.Balanced.{
  Content, nothing, other, string, group, last_quote, plain, braces, square,
  balanced_json_end_of_group,
}
use rust_forge.Ai.Json.Search.{Prose, byte, NoneWithin, parse_llm_json_finds}

abbrev plan : Forest
plan = node_then (node_then no_nodes no_nodes) (node_then no_nodes no_nodes)

validate_forest-Fits_example :
    ((0 < 2)
      × Fits 2 plan
      × (validate_forest plan 2
          ≡ ok (record { node_count = size plan; max_depth = deepest 2 plan })))
    ⊎ ((◌≡◌ {A = ℕ} 2 0 ⊎ PassesBudget 2 plan)
        × ((e : ForestError) × (validate_forest plan 2 ≡ err e)))
validate_forest-Fits_example = validate_forest-Fits plan 2

first_move : can_transition (codes "todo") (codes "in_progress") ≡ true
unfolding can_transition one_of
first_move = refl

second_move : can_transition (codes "in_progress") (codes "done") ≡ true
unfolding can_transition one_of
second_move = refl

abbrev moves : Moves (codes "todo") (codes "done")
moves = move (move stay first_move) second_move

todo_is_not_done : codes "todo" ≢ codes "done"
todo_is_not_done = text_eq-false (codes "todo") (codes "done") refl

done-Visits_example : Visits (codes "in_progress") moves
done-Visits_example = done-Visits (codes "todo") (codes "done") moves refl todo_is_not_done

skipped_is_terminal : is_terminal (codes "skipped") ≡ true
unfolding is_terminal one_of
skipped_is_terminal = refl

last_move : can_transition (codes "skipped") (codes "not_applicable") ≡ true
unfolding can_transition one_of
last_move = refl

abbrev task : ℕ → Option ℕ → Text → TaskNode
task id parent status = record {
  id = id;
  parent_id = parent;
  status = status;
  priority = 50;
  risk_rank = 1;
  archived = false;
  created_at = codes "2026";
  prerequisite_ids = [];
  evidence_ids = [];
}

abbrev tasks : List TaskNode
tasks =
    task 1 none (codes "in_progress")
    ∷ task 2 (some 1) (codes "todo")
    ∷ task 3 none (codes "done")
    ∷ []

-- Two tasks that are each below the other.
abbrev ring : List TaskNode
ring = task 1 (some 2) (codes "todo") ∷ task 2 (some 1) (codes "todo") ∷ []

ancestors_allow_execution_iff_example :
    (climb 3 ring [] (some 1)
      ≡ some (ancestors_allow_execution (task 2 (some 1) (codes "todo")) ring))
    × ((ancestors_allow_execution (task 2 (some 1) (codes "todo")) ring ≡ true)
        ↔ Ancestors ring (some 1))
ancestors_allow_execution_iff_example =
    ancestors_allow_execution_iff (task 2 (some 1) (codes "todo")) ring

next_actionable-NextAnswers_example : NextAnswers tasks (next_actionable tasks)
next_actionable-NextAnswers_example = next_actionable-NextAnswers tasks

next_actionable_first_example :
    ((next_actionable tasks ≡ none) × (candidates_of tasks ≡ []))
    ⊎ ((node : TaskNode) × (next_actionable tasks ≡ some node.id)
        × Any (λ t. t ≡ node) (candidates_of tasks)
        × All (NotAfter node) (candidates_of tasks))
next_actionable_first_example = next_actionable_first tasks

child_first : next_actionable tasks ≡ some 2
unfolding next_actionable find_node prerequisites_satisfied climb ancestors_allow_execution
    not_after insert_task sort_tasks has_unfinished_child is_candidate is_terminal one_of
child_first = refl

-- `"}":[]`
abbrev inner : List ℕ
inner = b'"' ∷ (b'}' ∷ b'"' ∷ []) ++ (b':' ∷ (b'[' ∷ [] ++ (b']' ∷ [])))

inner-Content : Content 63 inner
inner-Content =
    string (plain (omega arith) (omega arith) last_quote)
      (other (refl, refl, refl) (group square nothing nothing))

balanced_json_end_of_group_example :
    balanced_json_end (codes "x" ++ (b'{' ∷ inner ++ (b'}' ∷ codes " }"))) (length (codes "x"))
    ≡ some (length (codes "x") + length inner + 2)
balanced_json_end_of_group_example =
    balanced_json_end_of_group (codes "x") inner (codes " }") b'{' b'}' braces inner-Content

-- A reader that takes any fragment of more than two bytes.
abbrev read_long : List ℕ → Result ℕ (List ℕ)
read_long (a ∷ b ∷ c ∷ s) = ok (a ∷ b ∷ c ∷ s)
read_long _ = err 0

-- `[]` is read first, and refused.
abbrev answer : List ℕ
answer = codes "[] " ++ (b'[' ∷ codes "1" ++ (b']' ∷ []))

refused_first : NoneWithin read_long answer (codes "[] ") 0
unfolding balanced_json_end scan step
refused_first [] after b e prose opens = inr (2, 0, refl, refl)
refused_first (x ∷ []) after b e prose opens = inl refl
refused_first (x ∷ y ∷ []) after b e prose opens =
    let third : ◌≡◌ {A = Option ℕ} (some 32) (some b) = ap (λ l. get_elem? l 2) e in
    let same : 32 ≡ b = some-injective third in absurd (ground (arith, same, opens))
refused_first (x ∷ y ∷ z ∷ before) after b e prose opens =
    let same : 3 ≡ suc (suc (suc (length (before ++ (b ∷ after))))) = ap length e in
    absurd (omega (arith, same, length-append before (b ∷ after)))

answer_bytes : as_bytes (strip_code_fence (codes "[] [1]")) ≡ answer
unfolding as_bytes strip_code_fence trim trim_start_matches trim_end_matches strip_prefix
    strip_suffix is_whitespace
answer_bytes = refl

parse_llm_json_finds_example : parse_llm_json read_long (codes "[] [1]") ≡ ok (codes "[1]")
parse_llm_json_finds_example =
    parse_llm_json_finds read_long (codes "[] [1]") (codes "[] ") (codes "1") [] b'[' b']'
      (codes "[1]") answer_bytes
      (byte (omega arith) (byte (omega arith) (byte (omega arith) Prose.nothing))) square
      (other (refl, refl, refl) nothing) refused_first refl
