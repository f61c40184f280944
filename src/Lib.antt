-- ===== src/Lib.antt =====
-- Verification library of agnoflow-engine: the core of the workflow engine, crates/wfe-core, and the
-- simulator of crates/wfe.
--
-- A workflow definition (`Wfd`) has nodes, actions and terminals. An instance (`Wfes`) stands at a
-- node, or at one node for each branch of a fork, and keeps a context (JSON) and a ledger (`Wfah`),
-- to which every transition appends rows. The engine decides who may see an instance, who may claim
-- it and who may work on it (matcher, grants, visibility), evaluates guards in a context of its own
-- (eval, env), checks an action's input, runs its effects and its triggers, routes it through forks
-- and joins (pipeline) and says what has become of the instance (`CommitOutcome`). What has happened,
-- down to the grants that an escalation has opened, is read off the ledger's rows, whose kind is
-- encoded in a text. The simulator carries out what the engine decides on an instance in memory.
--
-- Which file models what (v22/ is crates/wfe-core/src/v22, types/ crates/wfe-core/src/types):
--   Types/            types/, error.rs, v22/ports.rs: the records and enums that the code below
--                     reads. Json is `serde_json::Value`, Host the functions of uuid, chrono,
--                     serde_json, jsonschema and zen_expression, which are parameters.
--   Ledger/Order      types/wfah.rs: sequence numbers, with the wrap of a `u32`.
--   Ledger/Kind       v22/wfah_kind.rs `parse_marker`, and the marker texts of pipeline.rs and
--                     ownership.rs.
--   Ledger/Payload    v22/wfah_payload.rs: `to_value`, `from_row`, `map_nodes`, `join_row`.
--   Ledger/Ownership  v22/ownership.rs: claims taken and released, `wait_base`, `seconds_between`.
--   Ledger/Valid      v22/valid.rs: `round_of`, `live_round`, `invalid_reason`, `derive_valid`.
--   Ledger/Projection v22/eval.rs: the rows as an expression sees them, `project_entry`,
--                     `project_valid`.
--   Env               v22/env.rs: `EnvSet`, `references`, `assert_refs_defined`, `resolve_string`.
--   Eval              v22/eval.rs: `EvalEnv` and its builders, `zen_context`, `evaluate_bool`.
--   Effects           v22/effects.rs: `get_path`, `set_path`, `resolve_value`, `apply_effects`.
--   Duration          v22/duration.rs: `parse_iso8601_duration`.
--   Access/Ports      ports.rs: the trait `OrgPort`, an interface that its clients take.
--   Access/Resolver   v22/resolver.rs: anchors, `resolve_c_orgu`, `resolve_cu_ident`.
--   Access/Matcher    v22/matcher.rs: `authorize_anchored`, delegations.
--   Access/Grants     v22/grants.rs: `matches_grant_rules`, the gate of the global actions,
--                     `open_grants`, `authorize_node_decision`.
--   Access/Visibility v22/visibility.rs: `visible`, `filter_dynctx`, `can_view`.
--   Outcome           v22/ports.rs: `CommitOutcome` and its questions, `Wfes::rev`.
--   ContextTypes      v22/ctx_types.rs: `field_schema`, `validate_at`, `validate_input`,
--                     `validate_written`.
--   Attachments       v22/attachments.rs: `check_upload`, `gate_slots`, `missing_required`.
--   Pipeline/         v22/pipeline.rs:
--     Routing         `visited_nodes`, `offered_targets`, `select_wft`.
--     Rows            `stage_rows`, `stamp_movement`, `branch_label`.
--     Sla             `next_escalation`, `deadline_due`, `claim_timeout_due`.
--     Graph           `fork_subgraph`.
--     Join            `stage_parallel_markers`, `arrived_entries_with`.
--     Route           `resolve_wft`, `terminal_outcome`.
--     Input           `validate_action_input`, `collect_leaf_paths`, `guard_written_ctx`.
--     Triggers        `run_triggers`, `execute_with_retry`.
--     Candidates      `resolve_candidates`, `node_candidates`, `candidates_at`.
--     Calls           `stage_calls`, `stage_claim_recheck`.
--     Claims          `can_claim`, `claim_decision`.
--     Seat, Apply     `apply` and `apply_parallel`: the seat from which an action is taken, and what
--                     it commits.
--     Start           `start`.
--     Returns         `fire_call_return`.
--   EndTerminal       v22/end_terminal.rs: `infer_end_terminal`.
--   Sim               crates/wfe/src/sim.rs: `SimState`, its conversions and `apply_commit`.
--   Sim/Steps         crates/wfe/src/sim.rs: `start`, `apply`, `call_return`, `attach`, `detach`,
--                     `eligible`. Sim/Reach has the step relation, Sim/Phases the abstract machine.
--   Tests/            runs of the model on small workflows.
--
-- How: a fallible function returns `Result`, an `async` one is its sequence of questions to the
-- store, asked in the order of the code. `Utc::now()` is an argument, one for all the readings of a
-- transition. A text is the list of its code points, a `Uuid` and an instant are numbers, a
-- `BTreeMap` an association list and a `BTreeSet` a list. An autoexec's runner is a function of the
-- run's number, since each run may end otherwise. An `unwrap` or an arithmetic of chrono's
-- that would panic is a failure of its own, `overflow`; the last instant that chrono holds is a
-- parameter. Machine integers wrap, as in a build without overflow checks.
--
-- Loops are structural recursion, or run on fuel: the scan and the resolver of references on the
-- length of the text and one (Env/Rounds), the layers of a call's marker likewise
-- (Ledger/Kind/Markers), the retries of a trigger on one more than all the attempts that its
-- retriers have (Pipeline/Triggers/Retries), and the walk of a fork's subgraph on as many
-- rounds as the fork's entries and all targets together (Pipeline/Graph/Reach), each of which is enough. The hops that
-- ContextTypes counts are the code's own limit.
--
-- Not modelled: the firing of an escalation, a deadline and a claim's timeout, `possible_actions`,
-- `reassign`, the view grants and the administrator's actions of pipeline.rs; the waiting between two
-- retries; the wordings of most messages; the validator of documents; the notes of a simulated
-- instance. The rest of crates/wfe and the other crates are I/O: repositories, the executor, the
-- HTTP server.
pub mod Prelude
pub mod Types
pub mod Duration
pub mod Ledger
pub mod Env
pub mod Eval
pub mod Access
pub mod Effects
pub mod Outcome
pub mod ContextTypes
pub mod Attachments
pub mod Pipeline
pub mod EndTerminal
pub mod Sim
pub mod Tests
