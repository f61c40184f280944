-- ===== src/Tests/FlowRuns.antt =====
-- Runs of the engine and of a simulation (v22/pipeline.rs, crates/wfe/src/sim.rs) that the tests share:
-- a start, an upload, an action that writes, and a fork.
use agnoflow_engine.Types.Equality.{json_eq}
use agnoflow_engine.Effects.{apply_effects}
use agnoflow_engine.Attachments.{check_upload, gate_slots, find_item}
use agnoflow_engine.Ledger.Valid.{round_of_opt}
use agnoflow_engine.Access.Grants.{open_grants}
use agnoflow_engine.Access.Matcher.{authorize}
use agnoflow_engine.Access.Resolver.{resolve_c_orgu}
use agnoflow_engine.ContextTypes.{
  deref, field_schema, validate_at, written_field, validate_input, validate_written, written_fields,
}
use agnoflow_engine.Env.{assert_refs_defined}
use agnoflow_engine.Eval.{evaluate_bool}
use agnoflow_engine.Outcome.{to_node, from_node, resolution}
use agnoflow_engine.Pipeline.Calls.{stage_calls}
use agnoflow_engine.Pipeline.Candidates.{candidates_at}
use agnoflow_engine.Pipeline.Input.{collect_leaf_paths, validate_action_input, guard_written_ctx}
use agnoflow_engine.Pipeline.Route.{resolve_wft}
use agnoflow_engine.Pipeline.Rows.{stamp_movement, next_seq, branch_round_of}
use agnoflow_engine.Pipeline.Triggers.{run_triggers}
use agnoflow_engine.Pipeline.Start.{start}
use agnoflow_engine.Prelude.{
  ℤ, split, strip_prefix, ℕ, ◌≡◌, refl, ◌++◌, Option, false, true, none, some, [], ◌∷◌, codes, ok,
  Text, lookup, text_eq,
}
use agnoflow_engine.Pipeline.Seat.{Request}
use agnoflow_engine.Types.Commit.{NewWfe}
use agnoflow_engine.Outcome.{move_to}
use agnoflow_engine.Types.Actor.{ca}
use agnoflow_engine.Types.Json.{insert_field, get_field, get, obj, string, bool}
use agnoflow_engine.Types.Actor.{Instant}
use agnoflow_engine.Types.Wfah.{WfahEntry, extended}
use agnoflow_engine.Types.Commit.{TransitionCommit, ClaimRecheck}
use agnoflow_engine.Types.Wfes.{Wfes}
use agnoflow_engine.Types.Actor.{ResolvedCandidate}
use agnoflow_engine.Types.Wfd.{JoinRule}
use agnoflow_engine.Outcome.{fork_to, from_node, to_node, clears_claim}
use agnoflow_engine.Pipeline.Apply.{apply}
use agnoflow_engine.Pipeline.Seat.{seat_of}
use agnoflow_engine.Pipeline.Sla.{deadline_due}
use agnoflow_engine.Pipeline.Routing.{select_wft}
use agnoflow_engine.Pipeline.Calls.{stage_claim_recheck}
use agnoflow_engine.Pipeline.Join.{stage_parallel_markers}
use agnoflow_engine.Pipeline.Claims.{can_claim}
use agnoflow_engine.Access.Grants.{authorize_node}
use agnoflow_engine.Access.Matcher.{authorize_with_delegation_anchored}
use agnoflow_engine.Attachments.{missing_required, gate_slots, find_item}
use agnoflow_engine.Sim.{to_wfes, has_attachment}
use agnoflow_engine.Sim.Steps.{eligible, missing_gate_attachments, carry_on}
use agnoflow_engine.Types.Wfd.{WftTarget}
use agnoflow_engine.Ledger.Payload.{WfahPayload, to_value}
use agnoflow_engine.Pipeline.Join.{system_actor}
use agnoflow_engine.Types.Wfes.{WfeStatus}
use agnoflow_engine.Sim.{
  SimState, SimAttachment, active_nodes, apply_commit, from_new_wfe, forked_branch,
}
use agnoflow_engine.Sim.Steps.{begin, advance, attach}
use agnoflow_engine.Tests.Data.{alice}
use agnoflow_engine.Tests.Flow.{engine, flow, opening, request, blank}

abbrev pub opened : SimState
opened = record blank {
  wfe_id = 5;
  orgtnt_id = 9;
  dynctx = obj [];
  wfah =
      record {
        seq = 1;
        action = codes "open";
        actor = alice;
        input = some (obj []);
        applied_at = 1;
        from_node = none;
        to_node = some (codes "review");
        branch_entry = none;
        branch_round = none;
      }
      ∷ [];
  current_node = some (codes "review");
  status = WfeStatus.active;
  visited_nodes = codes "review" ∷ [];
}

pub is_opened : begin engine flow 1 opening ≡ ok opened
unfolding begin start lookup text_eq authorize resolve_c_orgu validate_action_input
    collect_leaf_paths validate_input evaluate_bool assert_refs_defined run_triggers resolve_wft
    candidates_at open_grants stage_calls guard_written_ctx validate_written written_fields
    resolution from_new_wfe stamp_movement from_node to_node
is_opened = refl

abbrev pub max_bytes : Text → ℕ
max_bytes mb = 0

abbrev pub upload : SimAttachment
upload = record {
  group = codes "file";
  item = codes "paper";
  filename = none;
  content_type = none;
  size_bytes = ℤ.pos 3;
  node = none;
}

abbrev pub with_paper : SimState
with_paper = record opened { attachments = record upload { node = some (codes "review") } ∷ [] }

pub is_uploaded : attach max_bytes flow opened upload ≡ ok with_paper
unfolding attach lookup text_eq find_item active_nodes gate_slots check_upload
is_uploaded = refl

abbrev pub row_of :
    ℕ → Text → Instant → Option Text → Option Text → Option Text → Option ℕ → WfahEntry
row_of seq action at from to entry round = record {
  seq = seq;
  action = action;
  actor = alice;
  input = some (obj []);
  applied_at = at;
  from_node = from;
  to_node = to;
  branch_entry = entry;
  branch_round = round;
}

abbrev pub fork_row : WfahEntry
fork_row = record (row_of 3 (codes "_fork") 2 none none none none) {
  actor = system_actor;
  input = some (
      to_value (
        WfahPayload.fork (codes "left" ∷ codes "right" ∷ [])
          (obj ((codes "node", string (codes "done")) ∷ [])) (codes "and") none none));
}

abbrev pub fork_state : SimState
fork_state = record with_paper {
  wfah =
      with_paper.wfah
      ++ row_of 2 (codes "split") 2 (some (codes "review")) none none none ∷ fork_row ∷ [];
  current_node = none;
  visited_nodes = codes "review" ∷ codes "left" ∷ codes "right" ∷ [];
  branches = forked_branch 2 (codes "left") ∷ forked_branch 2 (codes "right") ∷ [];
  join_target = some (WftTarget.node (codes "done"));
}

abbrev pub clerk : ResolvedCandidate
clerk = record {
  orgu_id = some 1;
  role = codes "clerk";
  user_id = none;
  user_ident = none;
  any_orgu = false;
  authority = none;
}

abbrev pub fork_commit : TransitionCommit
fork_commit = record {
  wfe_id = 5;
  orgtnt_id = 9;
  new_dynctx = obj [];
  wfah_entries = row_of 2 (codes "split") 2 (some (codes "review")) none none none ∷ fork_row ∷ [];
  outcome =
      fork_to (codes "left" ∷ codes "right" ∷ []) (WftTarget.node (codes "done")) JoinRule.all;
  resolved_c_a = clerk ∷ clerk ∷ [];
  staged_calls = [];
  claim_recheck = ClaimRecheck.not_applicable;
  end_terminal = none;
}

abbrev pub with_owner : Wfes
with_owner = to_wfes with_paper (some 10) 2

pub fork_is_committed :
    apply engine flow 2 with_owner (request (codes "split") none) ≡ ok fork_commit
unfolding apply seat_of to_wfes deadline_due lookup text_eq evaluate_bool assert_refs_defined
    validate_action_input collect_leaf_paths validate_input select_wft run_triggers resolve_wft
    candidates_at resolve_c_orgu stage_calls guard_written_ctx validate_written written_fields
    stage_claim_recheck stage_parallel_markers stamp_movement from_node to_node resolution extended
    clears_claim next_seq branch_round_of round_of_opt
fork_is_committed = refl

pub fork_is_allowed : eligible engine flow 2 with_paper alice none ≡ ok true
unfolding eligible to_wfes can_claim deadline_due lookup text_eq authorize_node
    authorize_with_delegation_anchored resolve_c_orgu
fork_is_allowed = refl

pub fork_has_papers : missing_gate_attachments flow with_paper (codes "split") none ≡ []
unfolding missing_gate_attachments missing_required gate_slots has_attachment lookup text_eq
fork_has_papers = refl

pub is_split : advance engine flow 2 with_paper (request (codes "split") none) ≡ ok fork_state
unfolding advance carry_on apply_commit extended resolution text_eq
is_split = rw (fork_is_allowed, fork_has_papers, fork_is_committed) refl

-- an action that writes `x` and stays
abbrev pub note_request : Request
note_request = request (codes "note") none

abbrev pub note_commit : TransitionCommit
note_commit = record fork_commit {
  new_dynctx = obj ((codes "x", bool true) ∷ []);
  wfah_entries =
      row_of 2 (codes "note") 2 (some (codes "review")) (some (codes "review")) none none ∷ [];
  outcome = move_to (codes "review");
  resolved_c_a = record clerk { authority = some ca } ∷ [];
}

pub note_is_committed : apply engine flow 2 with_owner note_request ≡ ok note_commit
unfolding apply seat_of to_wfes deadline_due lookup text_eq evaluate_bool assert_refs_defined
    validate_action_input collect_leaf_paths validate_input select_wft run_triggers resolve_wft
    candidates_at resolve_c_orgu stage_calls guard_written_ctx validate_written written_fields
    stage_claim_recheck stage_parallel_markers stamp_movement from_node to_node resolution extended
    clears_claim next_seq branch_round_of round_of_opt strip_prefix apply_effects split get
    get_field insert_field written_field validate_at field_schema deref json_eq open_grants
note_is_committed = refl

abbrev pub new_flow : NewWfe
new_flow = record {
  wfe_id = 5;
  orgtnt_id = 9;
  wfd_id = 0;
  initial_dynctx = obj [];
  wfah_entries = opened.wfah;
  outcome = move_to (codes "review");
  resolved_c_a = record clerk { authority = some ca } ∷ [];
  deadline = none;
  staged_calls = [];
  origin_orgu_id = 1;
  end_terminal = none;
}

pub is_started : start engine flow 1 opening ≡ ok new_flow
unfolding start lookup text_eq authorize resolve_c_orgu validate_action_input collect_leaf_paths
    validate_input evaluate_bool assert_refs_defined run_triggers resolve_wft candidates_at
    open_grants stage_calls guard_written_ctx validate_written written_fields resolution
    stamp_movement from_node to_node
is_started = refl
