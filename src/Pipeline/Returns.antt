-- ===== src/Pipeline/Returns.antt =====
-- crates/wfe-core/src/v22/pipeline.rs: the return of a called workflow to its caller
-- (`Engine::fire_call_return`).
pub mod Concluded
use agnoflow_engine.Prelude.{
  ℕ, zero, suc, ◌+◌, ◌-◌, ltb, Bool, true, false, Option, none, some, List, [], ◌∷◌, ◌++◌,
  if◌then◌else◌, Text, codes, lookup, length, get_elem?, map_opt, and_then, unwrap_or, Result, ok,
  err, ◌>>=◌,
}
use agnoflow_engine.Types.Json.{Json, null, number, pos_int, string, obj, opt_string, opt_json}
use agnoflow_engine.Types.Errors.{Fallible, invalid_wfd}
use agnoflow_engine.Types.Actor.{Uuid, Instant, Actor}
use agnoflow_engine.Types.Wfah.{Wfah, WfahEntry, u32, extended}
use agnoflow_engine.Types.Wfd.{WfesEffects, CallRef, NodeDef, Wft, Wfd}
use agnoflow_engine.Types.Wfes.{Wfes}
use agnoflow_engine.Types.Commit.{TransitionCommit}
use agnoflow_engine.Eval.{CallOutcome}
use agnoflow_engine.Effects.{EffectEnv, apply_effects}
use agnoflow_engine.Ledger.Payload.{WfahPayload, to_value}
use agnoflow_engine.Ledger.Valid.{for_version}
use agnoflow_engine.Outcome.{CommitOutcome}
use agnoflow_engine.Duration.{Failure}
use agnoflow_engine.Pipeline.Rows.{seq_after, next_seq, system_actor_anchored}
use agnoflow_engine.Pipeline.Join.{Trigger, TriggerKind, system_actor, stage_parallel_markers}
use agnoflow_engine.Pipeline.Route.{WftMode, Situation, Routed, resolve_wft}
use agnoflow_engine.Pipeline.Input.{guard_written_ctx}
use agnoflow_engine.Pipeline.Candidates.{candidates_at}
use agnoflow_engine.Pipeline.Calls.{raise, stage_calls, stage_claim_recheck}
use agnoflow_engine.Pipeline.Seat.{Engine}
use agnoflow_engine.Pipeline.Apply.{end_terminal_of}

-- `MAX_INLINED_CALL_ENTRIES`
abbrev pub max_inlined : ℕ
max_inlined = 100

abbrev pub take {ℓ} : {A : Type ℓ} → ℕ → List A → List A
take zero xs = []
take (suc n) [] = []
take (suc n) (x ∷ xs) = x ∷ take n xs

-- how the called workflow has ended
pub record Return : Type 0 where
  pub status : Text
  pub callee : Option Uuid
  pub end_response : Option Json
  pub callee_wfah : Wfah

abbrev call_marker : Text → Text
call_marker use_ = codes "call:" ++ use_

abbrev plain_row : ℕ → Text → Actor → Json → Instant → WfahEntry
plain_row seq action actor input at = record {
  seq = seq;
  action = action;
  actor = actor;
  input = some input;
  applied_at = at;
  from_node = none;
  to_node = none;
  branch_entry = none;
  branch_round = none;
}

module _ (engine : Engine) where
  open engine use {host, org, env, max_instant}

  abbrev callee_text : Option Uuid → Option Text
  callee_text callee = map_opt host.uuid_text callee

  pub inlined_row : Text → Option Uuid → ℕ → WfahEntry → WfahEntry
  inlined_row marker callee seq e =
      plain_row seq (marker ++ (codes "/" ++ e.action)) e.actor
        (obj (
          (codes "callee_wfe_id", opt_string (callee_text callee))
          ∷ (codes "callee_seq", number (pos_int e.seq))
          ∷ (codes "action", string e.action)
          ∷ (codes "input", opt_json e.input)
          ∷ []))
        e.applied_at

  pub inlined_rows : Text → Option Uuid → ℕ → Wfah → List WfahEntry
  unfolding inlined_row
  inlined_rows marker callee seq [] = []
  inlined_rows marker callee seq (e ∷ es) =
      inlined_row marker callee seq e ∷ inlined_rows marker callee (u32 (seq + 1)) es

  abbrev last_time : Wfah → Option Instant
  last_time es = map_opt WfahEntry.applied_at (get_elem? es (max_inlined - 1))

  -- the row that says how many rows were left out, if any was
  pub truncated_rows : Text → Option Uuid → ℕ → Wfah → Instant → List WfahEntry
  truncated_rows marker callee seq es now =
      if ltb max_inlined (length es)
      then plain_row seq (marker ++ codes "/…") system_actor
          (to_value (
            WfahPayload.call_truncated (callee_text callee) (length es - max_inlined)
              (codes "call_history_truncated")))
          (unwrap_or (last_time es) now)
        ∷ []
      else []

  pub closing_row : Text → Return → ℕ → Instant → WfahEntry
  closing_row marker r seq now =
      plain_row seq marker system_actor
        (to_value (WfahPayload.call_return (some r.status) (callee_text r.callee))) now

  -- the rows of the return, the first with the number `seq`
  pub return_rows : Text → Return → ℕ → Instant → List WfahEntry
  unfolding inlined_rows truncated_rows closing_row
  return_rows marker r seq now =
      let inlined = inlined_rows marker r.callee seq (take max_inlined r.callee_wfah) in
      let cut = truncated_rows marker r.callee (seq_after seq inlined) r.callee_wfah now in
      inlined ++ (cut ++ closing_row marker r (seq_after seq (inlined ++ cut)) now ∷ [])

  module _ (wfd : Wfd) (wfes : Wfes) (r : Return) (now : Instant) where
    abbrev outcome_of : CallOutcome
    outcome_of = record {
      result = unwrap_or r.end_response null;
      status = r.status;
      wfe_id = r.callee;
    }

    abbrev effect_env : Text → EffectEnv
    effect_env node = record {
      actor = system_actor;
      wfe_id = wfes.wfe_id;
      node = some node;
      action_input = none;
      exec_result = none;
      call = some outcome_of;
      env = env.public;
      now = now;
      wfah = wfes.wfah;
      valid_rules = for_version wfd;
    }

    abbrev write : Option WfesEffects → Text → Fallible Json
    write none node = ok wfes.dynctx
    write (some effects) node = apply_effects host wfes.dynctx effects (effect_env node) now

    abbrev pub situation : Situation
    situation = record {
      wfd = wfd;
      wfah = wfes.wfah;
      actor = system_actor_anchored wfes;
      wfe_id = wfes.wfe_id;
      action_input = none;
      call = some outcome_of;
      env = env.public;
      now = now;
    }

    abbrev pub rows : CallRef → List WfahEntry
    rows c = return_rows (call_marker c.use_) r (next_seq wfes.wfah) now

    abbrev pub trigger : CallRef → Trigger
    trigger c = record {
      kind = TriggerKind.system;
      branch = none;
      action = some (call_marker c.use_);
      actor = system_actor;
    }

    abbrev pub all_rows : CallRef → CommitOutcome → List WfahEntry
    all_rows c outcome =
        rows c
        ++ stage_parallel_markers host wfes (trigger c) outcome
            (seq_after (next_seq wfes.wfah) (rows c)) now

    abbrev node_here : Fallible Text
    node_here = elim wfes.current_node [
      | none ↦ err (invalid_wfd (codes "çağrı dönüşü için current_node yok"))
      | some n ↦ ok n
    ]

    abbrev call_here : Text → Fallible CallRef
    call_here node = elim (and_then (lookup node (Wfd.nodes wfd)) NodeDef.call) [
      | none ↦ err (invalid_wfd (codes "'" ++ (node ++ codes "' bir çağrı node'u değil")))
      | some c ↦ ok c
    ]

    abbrev route_here : Text → CallRef → Fallible Wft
    route_here node c = elim c.wft [
      | none ↦ err (invalid_wfd (codes "'" ++ (node ++ codes "' çağrı node'u wft içermeli")))
      | some wft ↦ ok wft
    ]

    pub conclude_return : CallRef → Routed → Result Failure TransitionCommit
    conclude_return c (outcome, final_ctx, landed) = do
      candidates ← raise (
          candidates_at host org final_ctx (extended wfes.wfah (rows c))
            (unwrap_or wfes.origin_orgu_id (Actor.orgu_id (system_actor_anchored wfes)))
            wfes.orgtnt_id outcome landed wfd)
      calls ←
          stage_calls host max_instant env.public wfd final_ctx wfes.wfah
            (system_actor_anchored wfes) wfes.wfe_id now landed
      written ← raise (guard_written_ctx host wfd wfes.dynctx final_ctx)
      claim ←
          raise
            (stage_claim_recheck host org now wfd wfes outcome (all_rows c outcome) final_ctx none)
      ok record {
        wfe_id = wfes.wfe_id;
        orgtnt_id = wfes.orgtnt_id;
        new_dynctx = final_ctx;
        wfah_entries = all_rows c outcome;
        outcome = outcome;
        resolved_c_a = candidates;
        staged_calls = calls;
        claim_recheck = claim;
        end_terminal = end_terminal_of landed;
      }

    unfoldable pub fire_call_return : Result Failure TransitionCommit
    unfolding conclude_return
    fire_call_return = do
      node ← raise node_here
      c ← raise (call_here node)
      staged ← raise (write (CallRef.wfes_effects c) node)
      wft ← raise (route_here node c)
      routed ← raise (resolve_wft host situation wft staged WftMode.single false)
      conclude_return c routed
