-- ===== src/Pipeline/Apply.antt =====
-- crates/wfe-core/src/v22/pipeline.rs: an action (`Engine::apply`), outside and inside of the
-- parallel mode.
pub mod Admitted
pub mod Concluded
pub mod Written
pub mod Numbered
use agnoflow_engine.Prelude.{
  ℕ, ◌+◌, ◌-◌, Bool, true, false, ◌&&◌, not, Option, none, some, List, [], ◌∷◌, ◌++◌, ◌==◌,
  if◌then◌else◌, Text, Dict, codes, text_eq, opt_eq, any, filter, length, map, lookup, is_some,
  and_then, map_opt, unwrap_or, Result, ok, err, ◌>>=◌,
}
use agnoflow_engine.Types.Json.{Json, null, object, end, obj}
use agnoflow_engine.Types.Errors.{
  Fallible, EngineError, wfe_terminal, wfe_expired, not_claimed, not_owner, invalid_wfd,
  invalid_input, transition_not_found, ambiguous_action, permission_denied, start_not_eligible,
}
use agnoflow_engine.Types.Actor.{Uuid, Instant, Actor}
use agnoflow_engine.Types.Wfah.{Wfah, WfahEntry, u32, extended}
use agnoflow_engine.Types.Wfd.{
  CandidateActor, WfesEffects, WftTarget, Wft, ActionDef, NodeDef, StartRule, Wfd,
}
use agnoflow_engine.Types.Wfes.{BranchState, branch_is_active, Wfes}
use agnoflow_engine.Types.Host.{Host}
use agnoflow_engine.Types.Commit.{
  CallSite, AutoexecRunner, StagedCall, ClaimRecheck, TransitionCommit, NewWfe,
}
use agnoflow_engine.Env.{RunEnv}
use agnoflow_engine.Eval.{
  EvalEnv, new, with_wfah, with_node, with_actor, with_wfe_id, with_action_input, evaluate_bool,
}
use agnoflow_engine.Effects.{EffectEnv, apply_effects}
use agnoflow_engine.Ledger.Valid.{for_version}
use agnoflow_engine.Outcome.{CommitOutcome}
use agnoflow_engine.Access.Ports.{OrgPort}
use agnoflow_engine.Access.Matcher.{MatchEnv, authorize, authorize_anchored}
use agnoflow_engine.Duration.{Failure, error, overflow, parse_iso8601_duration}
use agnoflow_engine.Pipeline.{is_terminal_class}
use agnoflow_engine.Pipeline.Sla.{deadline_due, later}
use agnoflow_engine.Pipeline.Routing.{visited_nodes, select_wft}
use agnoflow_engine.Pipeline.Rows.{stamp_movement, next_seq, branch_round_of, all_entry_nodes}
use agnoflow_engine.Pipeline.Join.{
  Trigger, TriggerKind, arrived_entries_with, stage_parallel_markers,
}
use agnoflow_engine.Pipeline.Route.{
  WftMode, BranchMode, single, branch, Situation, Routed, resolve_wft,
}
use agnoflow_engine.Pipeline.Input.{validate_action_input, guard_written_ctx}
use agnoflow_engine.Pipeline.Triggers.{Staging, TriggerScope, run_triggers}
use agnoflow_engine.Pipeline.Candidates.{candidates_at}
use agnoflow_engine.Pipeline.Calls.{raise, stage_calls, stage_claim_recheck}
use agnoflow_engine.Pipeline.Seat.{Engine, Request, Seat, Done, active_branches, seat_of}

-- `end_terminal_of`
abbrev pub end_terminal_of : Option CallSite → Option Text
end_terminal_of (some (CallSite.terminal id)) = some id
end_terminal_of (some (CallSite.node key)) = none
end_terminal_of none = none

abbrev pub is_send_back : Wft → Bool
is_send_back (Wft.send_back targets) = true
is_send_back _ = false

abbrev pub trigger_of : Request → Option BranchState → Trigger
trigger_of req none = record {
  kind = TriggerKind.system;
  branch = none;
  action = some req.action;
  actor = req.actor;
}
trigger_of req (some b) = record {
  kind = TriggerKind.branch;
  branch = some b.branch_node;
  action = some req.action;
  actor = req.actor;
}

abbrev pub mode_of : Wfes → WftTarget → BranchState → BranchMode
mode_of wfes join b = record {
  join = join;
  from_node = b.branch_node;
  others_active = length (active_branches wfes) - 1;
  rule = wfes.join_rule;
  all_entries = all_entry_nodes wfes;
  arrived_entries = arrived_entries_with wfes b.branch_node;
}

-- A branch acts only while the instance has a join.
abbrev pub wft_mode : Wfes → Option BranchState → WftMode
wft_mode wfes none = single
wft_mode wfes (some b) = elim wfes.join_target [
  | none ↦ single
  | some join ↦ branch (mode_of wfes join b)
]

abbrev pub action_row : Wfes → Request → Option BranchState → Instant → WfahEntry
action_row wfes req b now = record {
  seq = next_seq wfes.wfah;
  action = req.action;
  actor = req.actor;
  input = some req.input;
  applied_at = now;
  from_node = none;
  to_node = none;
  branch_entry = map_opt BranchState.entry_node b;
  branch_round = branch_round_of wfes.wfah (map_opt BranchState.entry_node b);
}

module _ (engine : Engine) (wfd : Wfd) (now : Instant) where
  open engine use {host, org, exec, env, max_instant}

  module _ (wfes : Wfes) (req : Request) where
    abbrev match_env : MatchEnv
    match_env = record { context = wfes.dynctx; ledger = wfes.wfah; orgtnt_id = wfes.orgtnt_id }

    -- the rule that narrows the action, anchored in the instance's own unit
    pub check_extra : Option CandidateActor → Fallible Done
    check_extra none = ok tt
    check_extra (some rule) =
        authorize_anchored host org rule req.actor wfes.origin_orgu_id match_env >>= λ fits.
        if fits then ok tt else err (permission_denied req.action)

    abbrev effect_env : Text → EffectEnv
    effect_env node = record {
      actor = req.actor;
      wfe_id = wfes.wfe_id;
      node = some node;
      action_input = some req.input;
      exec_result = none;
      call = none;
      env = env.public;
      now = now;
      wfah = wfes.wfah;
      valid_rules = for_version wfd;
    }

    abbrev write : Option WfesEffects → Text → Fallible Json
    write none node = ok wfes.dynctx
    write (some effects) node = apply_effects host wfes.dynctx effects (effect_env node) now

    abbrev pub scope : Seat → TriggerScope
    scope seat = record {
      wfd = wfd;
      actor = req.actor;
      wfe_id = wfes.wfe_id;
      node = some seat.node;
      branch_entry = map_opt BranchState.entry_node seat.branch;
      action_input = some req.input;
      wfah = wfes.wfah;
      now = now;
    }

    abbrev pub situation : Situation
    situation = record {
      wfd = wfd;
      wfah = wfes.wfah;
      actor = req.actor;
      wfe_id = wfes.wfe_id;
      action_input = some req.input;
      call = none;
      env = env.public;
      now = now;
    }

    abbrev pub opened : Json → Staging
    opened context = record { context = context; rows = []; seq = u32 (next_seq wfes.wfah + 1) }

    -- the rows of the action and of its triggers, once the outcome is known
    abbrev pub moved_rows : Seat → Staging → CommitOutcome → List WfahEntry
    moved_rows seat s outcome =
        stamp_movement (action_row wfes req seat.branch now) outcome (some seat.node) ∷ s.rows

    abbrev pub all_rows : Seat → Staging → CommitOutcome → List WfahEntry
    all_rows seat s outcome =
        moved_rows seat s outcome
        ++ stage_parallel_markers host wfes (trigger_of req seat.branch) outcome s.seq now

    abbrev branch_of : Seat → Option Text
    branch_of seat = map_opt BranchState.branch_node seat.branch

    -- what follows the route: the candidates, the calls, the gate on the context, the owner
    pub conclude : Seat → Staging → Routed → Result Failure TransitionCommit
    conclude seat s (outcome, final_ctx, landed) = do
      candidates ← raise (
          candidates_at host org final_ctx (extended wfes.wfah (moved_rows seat s outcome))
            (unwrap_or wfes.origin_orgu_id (Actor.orgu_id req.actor)) wfes.orgtnt_id outcome landed
            wfd)
      calls ←
          stage_calls host max_instant env.public wfd final_ctx wfes.wfah req.actor wfes.wfe_id now
            landed
      written ← raise (guard_written_ctx host wfd wfes.dynctx final_ctx)
      claim ← raise (
          stage_claim_recheck host org now wfd wfes outcome (all_rows seat s outcome) final_ctx
            (branch_of seat))
      ok record {
        wfe_id = wfes.wfe_id;
        orgtnt_id = wfes.orgtnt_id;
        new_dynctx = final_ctx;
        wfah_entries = all_rows seat s outcome;
        outcome = outcome;
        resolved_c_a = candidates;
        staged_calls = calls;
        claim_recheck = claim;
        end_terminal = end_terminal_of landed;
      }

    -- what follows the choice of the seat
    pub carry_out : Seat → Result Failure TransitionCommit
    unfolding check_extra conclude
    carry_out seat = do
      extra_fits ← raise (check_extra (ActionDef.extra_c_a seat.transition))
      input_fits ← raise (validate_action_input host seat.transition req.input wfd.context)
      wft ← raise (select_wft (ActionDef.wft seat.transition) req.target (visited_nodes wfd wfes))
      context ← raise (write (ActionDef.wfes_effects seat.transition) seat.node)
      s ← raise (
          run_triggers host exec env (scope seat) (ActionDef.trigger seat.transition)
            (opened context))
      routed ← raise (
          resolve_wft host situation wft (Staging.context s) (wft_mode wfes seat.branch)
            (is_send_back (ActionDef.wft seat.transition)))
      conclude seat s routed

    unfoldable pub apply : Result Failure TransitionCommit
    unfolding carry_out
    apply = raise (seat_of engine wfd now wfes req) >>= carry_out
