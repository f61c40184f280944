-- ===== src/Pipeline/Triggers.antt =====
-- crates/wfe-core/src/v22/pipeline.rs: the autoexecs that a transition triggers (`run_triggers`), with
-- their retries. The waiting between two attempts is not modelled.
pub mod Retries
pub mod Numbered
use agnoflow_engine.Prelude.{
  ℕ, zero, suc, ◌+◌, Bool, true, false, ◌||◌, not, Option, none, some, List, [], ◌∷◌, ◌++◌,
  if◌then◌else◌, leb, Text, codes, text_eq, any, map, lookup, unwrap_or, Result, ok, err, ◌>>=◌,
}
use agnoflow_engine.Types.Json.{Json}
use agnoflow_engine.Types.Errors.{Fallible, invalid_wfd, autoexec}
use agnoflow_engine.Types.Actor.{Uuid, Instant, Actor}
use agnoflow_engine.Types.Wfah.{Wfah, WfahEntry, u32}
use agnoflow_engine.Types.Wfd.{WfesEffects, AutoexecDef, Retrier, CatchDef, TriggerInvocation, Wfd}
use agnoflow_engine.Types.Host.{Host}
use agnoflow_engine.Types.Commit.{
  ExecFailure, ExecEnv, RunOutcome, finished, timed_out, AutoexecRunner,
}
use agnoflow_engine.Env.{RunEnv}
use agnoflow_engine.Eval.{
  EvalEnv, new, with_wfah, with_node, with_actor, with_wfe_id, with_action_input, evaluate_bool,
}
use agnoflow_engine.Effects.{EffectEnv, apply_effects}
use agnoflow_engine.Ledger.Payload.{WfahPayload, to_value}
use agnoflow_engine.Ledger.Valid.{for_version}
use agnoflow_engine.Pipeline.Rows.{branch_round_of}

-- `ExecFailure::timeout`
abbrev pub timeout_failure : ExecFailure
timeout_failure = record {
  error = codes "WFD.Timeout";
  message = codes "autoexec timeout_seconds aşıldı";
}

abbrev pub catches : List Text → ExecFailure → Bool
catches error_equals f =
    any (λ e. text_eq e (codes "WFD.ALL") || text_eq e (ExecFailure.error f)) error_equals

-- The retriers with the attempts that each has used. The first one that fits the failure takes one
-- more; there is no next attempt where none fits, or where it has no attempt left.
pub next_attempt : ExecFailure → List (Retrier × ℕ) → Option (List (Retrier × ℕ))
next_attempt failure [] = none
next_attempt failure ((r, used) ∷ rs) =
    let rest = next_attempt failure rs in
    if catches (Retrier.error_equals r) failure
    then if leb (Retrier.max_attempts r) used then none else some ((r, used + 1) ∷ rs)
    else elim rest [ none ↦ none | some rs' ↦ some ((r, used) ∷ rs') ]

abbrev pub attempt_result : RunOutcome → Result ExecFailure Json
attempt_result (finished r) = r
attempt_result timed_out = err timeout_failure

module _ (exec : AutoexecRunner) (def : AutoexecDef) (env : ExecEnv) where
  -- the loop, `runs` attempts into it; nothing when the fuel is out
  pub retry_loop : ℕ → ℕ → List (Retrier × ℕ) → Option (Result ExecFailure Json)
  unfolding next_attempt
  retry_loop zero runs rs = none
  retry_loop (suc fuel) runs rs =
      let again = retry_loop fuel (suc runs) in
      elim (attempt_result (exec.run runs def env)) [
        | ok v ↦ some (ok v)
        | err failure ↦ elim (next_attempt failure rs) [
          | none ↦ some (err failure)
          | some rs' ↦ again rs'
        ]
      ]

abbrev pub fresh : List Retrier → List (Retrier × ℕ)
fresh = map (λ r. (r, 0))

-- the attempts that all retriers have together
abbrev pub attempts : List Retrier → ℕ
attempts [] = 0
attempts (r ∷ rs) = r.max_attempts + attempts rs

pub execute_with_retry :
    AutoexecRunner → AutoexecDef → ExecEnv → List Retrier → Result ExecFailure Json
unfolding retry_loop
execute_with_retry exec def env retry =
    unwrap_or (retry_loop exec def env (suc (attempts retry)) 0 (fresh retry)) (err timeout_failure)

-- what a transition has staged so far: the context, the rows, the number of the next one
pub record Staging : Type 0 where
  pub context : Json
  pub rows : List WfahEntry
  pub seq : ℕ

abbrev pub as_system : Actor → Actor
as_system actor = record actor { role = codes "system" }

-- The arguments of `run_triggers` but for the triggers and what is staged.
pub record TriggerScope : Type 0 where
  pub wfd : Wfd
  pub actor : Actor
  pub wfe_id : Uuid
  pub node : Option Text
  pub branch_entry : Option Text
  pub action_input : Option Json
  pub wfah : Wfah
  pub now : Instant

abbrev done_payload : Json → WfahPayload Text
done_payload v = WfahPayload.trigger (some v) none none none none

abbrev failed_payload : ExecFailure → Bool → Option Bool → WfahPayload Text
failed_payload f handled required =
    WfahPayload.trigger none (some f.error) (some f.message) (some handled) required

pub trigger_row : TriggerScope → Text → WfahPayload Text → ℕ → WfahEntry
trigger_row at use_ payload seq = record {
  seq = seq;
  action = codes "trigger:" ++ use_;
  actor = as_system at.actor;
  input = some (to_value payload);
  applied_at = at.now;
  from_node = none;
  to_node = none;
  branch_entry = at.branch_entry;
  branch_round = branch_round_of at.wfah at.branch_entry;
}

abbrev pub add_row : Staging → Json → WfahEntry → Staging
add_row s context row = record {
  context = context;
  rows = s.rows ++ row ∷ [];
  seq = u32 (s.seq + 1);
}

abbrev caught : Option CatchDef → ExecFailure → Option WfesEffects
caught none f = none
caught (some c) f = if catches c.error_equals f then some c.wfes_effects else none

module _ (host : Host) (exec : AutoexecRunner) (env : RunEnv) (at : TriggerScope) where
  abbrev guard_env : Json → EvalEnv
  guard_env context =
      let base =
        with_wfe_id
          (with_actor
            (with_node (with_wfah host (new context) at.wfah (for_version at.wfd)) at.node)
            at.actor)
          at.wfe_id in
      elim at.action_input [ some input ↦ with_action_input base input | none ↦ base ]

  abbrev effect_env : Option Json → EffectEnv
  effect_env result = record {
    actor = as_system at.actor;
    wfe_id = at.wfe_id;
    node = at.node;
    action_input = at.action_input;
    exec_result = result;
    call = none;
    env = env.public;
    now = at.now;
    wfah = at.wfah;
    valid_rules = for_version at.wfd;
  }

  abbrev write : Option WfesEffects → Option Json → Json → Fallible Json
  write none result context = ok context
  write (some effects) result context =
      apply_effects host context effects (effect_env result) at.now

  abbrev exec_env : Json → ExecEnv
  exec_env context = record {
    wfe_id = at.wfe_id;
    context = context;
    node = at.node;
    actor = as_system at.actor;
    wfah = at.wfah;
    action_input = at.action_input;
    env = env;
    valid_rules = for_version at.wfd;
  }

  autoexec_failed : Text → ExecFailure → Text
  autoexec_failed use_ f =
      use_ ++ (codes ": " ++ (f.error ++ (codes " (" ++ (f.message ++ codes ")"))))

  -- a failure: it is caught, or it ends the transition, or it is noted and passed over
  pub trigger_failed : TriggerInvocation → ExecFailure → Staging → Fallible Staging
  unfolding trigger_row autoexec_failed
  trigger_failed trig f s = elim (caught trig.catch f) [
    | some effects ↦ write (some effects) none s.context >>= λ context.
        ok (add_row s context (trigger_row at trig.use_ (failed_payload f true none) s.seq))
    | none ↦
        if trig.required
        then err (autoexec (autoexec_failed trig.use_ f))
        else ok (
            add_row s s.context
              (trigger_row at trig.use_ (failed_payload f false (some false)) s.seq))
  ]

  pub trigger_done : TriggerInvocation → AutoexecDef → Json → Staging → Fallible Staging
  unfolding trigger_row
  trigger_done trig def v s = write def.wfes_effects (some v) s.context >>= λ context.
      ok (add_row s context (trigger_row at trig.use_ (done_payload v) s.seq))

  abbrev guarded : Option Text → Json → Fallible Bool
  guarded none context = ok true
  guarded (some when) context = evaluate_bool host when (guard_env context) at.now

  pub run_trigger : TriggerInvocation → Staging → Fallible Staging
  unfolding trigger_failed trigger_done
  run_trigger trig s = guarded trig.when s.context >>= λ runs.
      if not runs then ok s else elim (lookup trig.use_ (Wfd.autoexec at.wfd)) [
        | none ↦ err (invalid_wfd (codes "autoexec '" ++ (trig.use_ ++ codes "' tanımsız")))
        | some def ↦ elim (execute_with_retry exec def (exec_env s.context) trig.retry) [
          | ok v ↦ trigger_done trig def v s
          | err f ↦ trigger_failed trig f s
        ]
      ]

  unfoldable pub run_triggers : List TriggerInvocation → Staging → Fallible Staging
  unfolding run_trigger
  run_triggers [] s = ok s
  run_triggers (trig ∷ trigs) s = run_trigger trig s >>= run_triggers trigs
