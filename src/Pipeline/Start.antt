-- ===== src/Pipeline/Start.antt =====
-- crates/wfe-core/src/v22/pipeline.rs: the start of an instance (`Engine::start`).
pub mod Landed
use agnoflow_engine.Prelude.{
  Bool, true, false, not, Option, none, some, List, [], ◌∷◌, ◌++◌, if◌then◌else◌, Text, codes,
  text_eq, lookup, Result, ok, err, ◌>>=◌,
}
use agnoflow_engine.Types.Json.{Json, null, bool, number, string, array, object, obj}
use agnoflow_engine.Types.Errors.{
  Fallible, EngineError, invalid_wfd, invalid_input, start_not_eligible,
}
use agnoflow_engine.Types.Actor.{Uuid, Instant, Actor}
use agnoflow_engine.Types.Wfah.{WfahEntry}
use agnoflow_engine.Types.Wfd.{CandidateActor, WfesEffects, ActionDef, NodeDef, StartRule, Wfd}
use agnoflow_engine.Types.Commit.{NewWfe}
use agnoflow_engine.Eval.{
  EvalEnv, new, with_wfah, with_actor, with_wfe_id, with_action_input, evaluate_bool,
}
use agnoflow_engine.Effects.{EffectEnv, apply_effects}
use agnoflow_engine.Ledger.Valid.{for_version}
use agnoflow_engine.Access.Matcher.{MatchEnv, authorize, authorize_anchored}
use agnoflow_engine.Duration.{Failure, error, overflow, parse_iso8601_duration}
use agnoflow_engine.Outcome.{CommitOutcome}
use agnoflow_engine.Pipeline.Sla.{later}
use agnoflow_engine.Pipeline.Rows.{stamp_movement}
use agnoflow_engine.Pipeline.Route.{WftMode, Situation, Routed, resolve_wft}
use agnoflow_engine.Pipeline.Input.{validate_action_input, guard_written_ctx}
use agnoflow_engine.Pipeline.Triggers.{Staging, TriggerScope, run_triggers}
use agnoflow_engine.Pipeline.Candidates.{candidates_at}
use agnoflow_engine.Pipeline.Calls.{raise, stage_calls}
use agnoflow_engine.Pipeline.Seat.{Engine}
use agnoflow_engine.Pipeline.Apply.{end_terminal_of}

-- The arguments of `start` but for the document.
pub record StartRequest : Type 0 where
  pub actor : Actor
  pub orgtnt_id : Uuid
  pub action : Option Text
  pub input : Json
  pub wfe_id : Uuid
  pub deadline : Option Text

-- the input is an object; none given is an empty one
pub input_object : Json → Fallible Json
input_object (object m) = ok (object m)
input_object null = ok (obj [])
input_object (bool b) = err (invalid_input (codes "start input obje olmalı"))
input_object (number n) = err (invalid_input (codes "start input obje olmalı"))
input_object (string s) = err (invalid_input (codes "start input obje olmalı"))
input_object (array xs) = err (invalid_input (codes "start input obje olmalı"))

abbrev pub asked_for : Option Text → StartRule → Bool
asked_for none r = true
asked_for (some a) r = text_eq r.action a

deadline_error : Text → Failure
deadline_error d = error (
    invalid_input (
      codes "deadline '"
      ++ (d
          ++ codes
              "' geçersiz — ISO 8601 süre bekleniyor: PT30M (30 dakika), PT2H (2 saat), P1D (1 gün), P1DT12H (1 gün 12 saat)")))

-- an error in the caller's own text is an error of the input; an overflow panics all the same
abbrev from_caller : {A : Type 0} → Text → Result Failure A → Result Failure A
from_caller d (ok a) = ok a
from_caller d (err (error e)) = err (deadline_error d)
from_caller d (err overflow) = err overflow

module _ (engine : Engine) (wfd : Wfd) (now : Instant) where
  open engine use {host, org, exec, env, max_instant}

  module _ (req : StartRequest) (input : Json) where
    abbrev match_env : MatchEnv
    match_env = record { context = obj []; ledger = []; orgtnt_id = req.orgtnt_id }

    abbrev extra_admits : Option CandidateActor → Fallible Bool
    extra_admits none = ok true
    extra_admits (some rule) = authorize_anchored host org rule req.actor none match_env

    abbrev guard_env : EvalEnv
    guard_env =
        with_action_input
          (with_wfe_id (with_actor (with_wfah host (new (obj [])) [] (for_version wfd)) req.actor)
            req.wfe_id)
          input

    abbrev guard_holds : Option Text → Fallible Bool
    guard_holds none = ok true
    guard_holds (some expr) = evaluate_bool host expr guard_env now

    unknown_from : StartRule → ActionDef → EngineError
    unknown_from r a = invalid_wfd (
        codes "actions."
        ++ (r.action ++ (codes ".from bilinmeyen node: '" ++ (a.from ++ codes "'"))))

    -- authority, then the input, then the guard; only the input's errors end the search
    pub eligible : StartRule → ActionDef → Fallible Bool
    unfolding unknown_from
    eligible r a = elim (lookup a.from wfd.nodes) [
      | none ↦ err (unknown_from r a)
      | some n ↦ authorize host org (NodeDef.c_a n) req.actor match_env >>= λ may.
          if not may
          then ok false
          else extra_admits a.extra_c_a >>= λ extra.
              if not extra
              then ok false
              else validate_action_input host a input wfd.context >>= λ fits. guard_holds a.when
    ]

    abbrev tried : StartRule → Fallible (Option ActionDef)
    tried r = if not (asked_for req.action r) then ok none else elim (lookup r.action wfd.actions) [
      | none ↦ ok none
      | some a ↦ eligible r a >>= λ holds. ok (if holds then some a else none)
    ]

    -- the first start rule that the actor may use
    pub select_start : List StartRule → Fallible (StartRule × ActionDef)
    unfolding eligible
    select_start [] = err start_not_eligible
    select_start (r ∷ rs) =
        let rest = select_start rs in
        tried r >>= λ (m : Option ActionDef). elim m [ some a ↦ ok (r, a) | none ↦ rest ]

    abbrev due : Text → Result Failure (Option Instant)
    due text = parse_iso8601_duration text >>= λ seconds.
        later max_instant now seconds >>= λ at. ok (some at)

    pub resolved_deadline : Result Failure (Option Instant)
    unfolding deadline_error
    resolved_deadline = elim req.deadline [
      | some d ↦ from_caller d (parse_iso8601_duration d) >>= λ seconds.
          later max_instant now seconds >>= λ at. ok (some at)
      | none ↦ elim wfd.timeout [ none ↦ ok none | some t ↦ due t ]
    ]

    abbrev effect_env : EffectEnv
    effect_env = record {
      actor = req.actor;
      wfe_id = req.wfe_id;
      node = none;
      action_input = some input;
      exec_result = none;
      call = none;
      env = env.public;
      now = now;
      wfah = [];
      valid_rules = for_version wfd;
    }

    abbrev seeded : Option WfesEffects → Fallible Json
    seeded none = ok (obj [])
    seeded (some effects) = apply_effects host (obj []) effects effect_env now

    abbrev scope : TriggerScope
    scope = record {
      wfd = wfd;
      actor = req.actor;
      wfe_id = req.wfe_id;
      node = none;
      branch_entry = none;
      action_input = some input;
      wfah = [];
      now = now;
    }

    abbrev situation : Situation
    situation = record {
      wfd = wfd;
      wfah = [];
      actor = req.actor;
      wfe_id = req.wfe_id;
      action_input = some input;
      call = none;
      env = env.public;
      now = now;
    }

    abbrev first_row : StartRule → WfahEntry
    first_row r = record {
      seq = 1;
      action = r.action;
      actor = req.actor;
      input = some input;
      applied_at = now;
      from_node = none;
      to_node = none;
      branch_entry = none;
      branch_round = none;
    }

    abbrev rows_of : StartRule → Staging → CommitOutcome → List WfahEntry
    rows_of r s outcome = stamp_movement (first_row r) outcome none ∷ s.rows

    -- `parse_wfd_uuid`: the nil id for a name that is no UUID
    abbrev id_of : Text → Uuid
    id_of text = elim (host.parse_uuid text) [ ok id ↦ id | err e ↦ 0 ]

    pub new_wfe : StartRule → Option Instant → Staging → Routed → Result Failure NewWfe
    new_wfe r deadline s (outcome, final_ctx, landed) = do
      candidates ← raise (
          candidates_at host org final_ctx (rows_of r s outcome) (Actor.orgu_id req.actor)
            req.orgtnt_id outcome landed wfd)
      calls ←
          stage_calls host max_instant env.public wfd final_ctx [] req.actor req.wfe_id now landed
      written ← raise (guard_written_ctx host wfd (obj []) final_ctx)
      ok record {
        wfe_id = req.wfe_id;
        orgtnt_id = req.orgtnt_id;
        wfd_id = id_of wfd.id;
        initial_dynctx = final_ctx;
        wfah_entries = rows_of r s outcome;
        outcome = outcome;
        resolved_c_a = candidates;
        deadline = deadline;
        staged_calls = calls;
        origin_orgu_id = Actor.orgu_id req.actor;
        end_terminal = end_terminal_of landed;
      }

    pub start_by : StartRule × ActionDef → Result Failure NewWfe
    unfolding resolved_deadline new_wfe
    start_by (r, a) = do
      deadline ← resolved_deadline
      context ← raise (seeded a.wfes_effects)
      s ← raise (
          run_triggers host exec env scope a.trigger
            (record { context = context; rows = []; seq = 2 }))
      routed ← raise (resolve_wft host situation a.wft (Staging.context s) WftMode.start false)
      new_wfe r deadline s routed

  unfoldable pub start : StartRequest → Result Failure NewWfe
  unfolding select_start start_by input_object
  start req = raise (input_object req.input) >>= λ input.
      raise (select_start req input wfd.start) >>= start_by req input
