-- ===== src/Lib.antt =====
-- RustForge: a desktop tool for authorized security testing, with an intercepting proxy, an
-- assessment engine that sends requests to a target, and test plans. This library models the parts
-- that decide what may be sent and what is kept.
--
-- The parts, and how they interact. A project has a scope (src-tauri/src/authorization). An
-- assessment has a policy and a budget (src-tauri/src/assessment/policy.rs); its executor
-- (src-tauri/src/assessment/executor.rs) checks the contract again before each request, asks the
-- policy, which asks the scope, waits for its slot, reserves the request in the budget, sends it and
-- counts the bytes of the response. The manager (src-tauri/src/assessment/manager.rs) lets one
-- assessment run at a time. What a user follows is a mission (src-tauri/src/assessment/mission.rs):
-- its context and its actions, made of the tools of the registry
-- (src-tauri/src/assessment/catalog.rs), are approved before a run is linked to it, the plans of the
-- model are validated (src-tauri/src/assessment/planner.rs), and it follows the status of its run. The
-- responses to the probes of a check are compared and get a verdict
-- (src-tauri/src/assessment/verifier.rs), which is committed to the findings of the project
-- (src-tauri/src/assessment/outcome.rs). The proxy captures the bodies that stream through it
-- (src-tauri/src/proxy/body_capture.rs). Test plans are forests of tasks with a status
-- (src-tauri/src/tree/state.rs); a proposal of the model is compared with them
-- (src-tauri/src/tree/service.rs). The answers of a language model, plans among them, are searched for
-- JSON (src-tauri/src/ai/json_balanced.rs), and an analysis of traffic is validated
-- (src-tauri/src/ai/validation_calibrated.rs).
--
-- Files and what they model:
--   Base, Base/*: lists, tests, results and the widths of machine integers.
--   Text, Text/Utf8, Text/Laws: the methods of `str` that the program calls, over code points.
--   Authorization: the errors of src-tauri/src/authorization/mod.rs.
--   Authorization/Url: what the program calls of the crate `url`, a parameter.
--   Authorization/Scope: `ScopePolicy`, `authorize_host`, `authorize_url` of authorization/scope.rs;
--     Scope/Pattern: `ScopePolicy::new` and `normalize_scope_pattern`.
--   Assessment/Policy: `AssessmentPolicy` of assessment/policy.rs; Policy/Percent: its decoder.
--   Assessment/Budget: `RequestBudget`; a `&mut self` method is a function that returns the new state.
--   Assessment/Manager: `AssessmentManager`; the lock makes each method a function of the slot.
--   Assessment/Executor, Executor/Data: `AssessmentExecutor`; what the database, the clock and the
--     transport answer during one call is the record `World`.
--   Assessment/Catalog, Catalog/*: `TOOL_SPECS` and its searches.
--   Assessment/Planner: `parse_plan` of assessment/planner.rs, with serde_json as a parameter.
--   Assessment/Verifier/Data: `ResponseObservation`, `VerificationOutcome` and the readers of headers of
--     assessment/verifier.rs; Verifier/Baseline: `verify_security_headers`; Verifier: the other
--     verifiers and `verify`. Titles, reasons and the JSON of the observations are left out.
--   Assessment/Outcome: `commit_verification_outcome` of assessment/outcome.rs as a function of the rows
--     it writes; the fingerprints, the linked replays and the evidence are the record `World`.
--   Assessment/Mission/Status, Mission/Run: the enumerations of assessment/model.rs;
--     Mission/Transition: `validate_mission_transition`; Mission/Data: the rows of one mission;
--     Mission/Tools: `effective_permission`, `permission_state`, `tool_relevant` and
--     `prepare_workstreams_and_actions`; Mission/Control: `transition_mission_on` and the revisions;
--     Mission/Approval: `confirm_context`, `decide_action`, `prepare_start`, `set_tool_permission`;
--     Mission/Runs: `link_run_on`, `request_stop`, `sync_from_run_on`; Mission/Manual:
--     `select_manual_plans_for_run`; Mission/Handoffs: `create_handoff` and `link_handoff_replay`, where
--     a handoff is a field of its action, which has one at most. A transaction is a function of the
--     store of one mission; what it takes from the clock, the hashes and the previews is the record
--     `Env`. Mission/Steps: the operations as a step relation.
--   Proxy/Capture: the state of a capture; Capture/Decode: the decoding of what was captured, with
--     the decompressors as the record `Codecs`; Capture/Stream: the body that is teed;
--     Capture/Metadata: `BodyMetadata::from_headers`.
--   Tree/Forest: `validate_forest` of src-tauri/src/tree/state.rs; Tree/State: its statuses and their
--     transitions, node types and locked fields; Tree/Next: `next_actionable`.
--   Tree/Plan/Data: the nodes of a proposal, `flatten_plan`, and the rows of the database; Plan/Dag:
--     `validate_prerequisite_dag` of src-tauri/src/tree/service.rs; Plan/Diff: `compute_diff`.
--   Ai/Json: src-tauri/src/ai/json_balanced.rs, with `serde_json::from_str` as a parameter.
--   Ai/Validation: `parse_and_validate` of ai/validation_calibrated.rs, with the lookup of standard
--     references and `to_lowercase` as parameters; of the report the number of errors is kept.
--   Tests, Tests/*: concrete inputs, and each theorem at one of them.
-- The other files hold the proofs, and are named for what they prove.
--
-- Bounds. A number is printed with more fuel than it has digits (Text/Laws, `decimal_fuel`). The
-- percent decoder makes the three rounds of the source. The climb to the ancestors of a task has one
-- unit of fuel more than there are tasks, which is enough (Tree/Next/Fuel). The search for
-- a cycle has one unit more than there are nodes, and the loop that follows the links of nodes that
-- stay one more than there are links; both are enough (Tree/Plan/Dag/Accepted, Tree/Plan/Diff/Closed).
-- Revisions and ids are natural numbers without a bound, where the source has `i64`. Other loops are by
-- recursion on a list. `u32` counters wrap, and `u64` sums saturate, as in the source.
--
-- Not modelled: SQL statements that fail; the drafts of handoffs, workstreams and JSON results of a
-- mission; the merge of a proposal into the database; the requests of the templates and the phases
-- of a run; the rules; SQL of the other parts, network, windows, prompts, reports and certificates;
-- the messages of errors; the rate of an assessment, which is a floating-point number; a poisoned
-- lock.
pub mod Base
pub mod Text
pub mod Authorization
pub mod Assessment
pub mod Proxy
pub mod Ai
pub mod Tests
pub mod Tree
