-- ===== src/Eval.antt =====
-- crates/wfe-core/src/v22/eval.rs: the context that an expression sees, and its evaluation by the
-- ZEN engine, which is a parameter.
pub mod Context
use agnoflow_engine.Prelude.{
  ℕ, Bool, Option, none, some, List, [], ◌∷◌, ◌++◌, Text, codes, text_eq, map, any, filter, head?,
  last?, map_opt, unwrap_or, ok, err, ◌>>=◌, ◌>>◌,
}
use agnoflow_engine.Types.Json.{
  Json, null, bool, string, object, Fields, end, insert_field, obj, arr, opt_string, opt_json,
  opt_number, as_bool,
}
use agnoflow_engine.Types.Errors.{EngineError, Fallible, zen_evaluation}
use agnoflow_engine.Types.Actor.{Uuid, Instant, Actor}
use agnoflow_engine.Types.Wfah.{Wfah, WfahEntry}
use agnoflow_engine.Types.Host.{Host}
use agnoflow_engine.Env.{PublicEnv, empty_public_env, env_json, assert_refs_defined}
use agnoflow_engine.Ledger.Kind.{action, join, parse_marker, is_action}
use agnoflow_engine.Ledger.Projection.{empty_entry_shell, actor_json, project_entry, project_valid}
use agnoflow_engine.Ledger.Valid.{ValidRules, live_round}

pub record JoinEnv : Type 0 where
  pub all : List Text
  pub arrived : List Text

pub record CallOutcome : Type 0 where
  pub result : Json
  pub status : Text
  pub wfe_id : Option Uuid

pub record EvalEnv : Type 0 where
  pub ctx : Json
  pub wfah : List Json
  pub valid : List Json
  pub prev : Option Json
  pub first : Option Json
  pub node : Option Text
  pub actor : Option Actor
  pub wfe_id : Option Uuid
  pub action_input : Option Json
  pub exec_result : Option Json
  pub call : Option CallOutcome
  pub join : Option JoinEnv
  pub env : PublicEnv
  pub branch_round : Option ℕ

-- `JoinEnv::to_json`: a map from the branches to whether they have arrived, and those that have
join_fields : JoinEnv → List Text → Fields
join_fields j [] = end
join_fields j (b ∷ bs) = insert_field b (bool (any (λ a. text_eq a b) j.arrived)) (join_fields j bs)

pub join_json : JoinEnv → Json × Json
unfolding join_fields
join_json j = (object (join_fields j j.all), arr (map string j.arrived))

unfoldable pub new : Json → EvalEnv
new ctx = record {
  ctx = ctx;
  wfah = [];
  valid = [];
  prev = none;
  first = none;
  node = none;
  actor = none;
  wfe_id = none;
  action_input = none;
  exec_result = none;
  call = none;
  join = none;
  env = empty_public_env;
  branch_round = none;
}

unfoldable pub with_node : EvalEnv → Option Text → EvalEnv
with_node e node = record e { node = node }

unfoldable pub with_actor : EvalEnv → Actor → EvalEnv
with_actor e actor = record e { actor = some actor }

unfoldable pub with_wfe_id : EvalEnv → Uuid → EvalEnv
with_wfe_id e id = record e { wfe_id = some id }

unfoldable pub with_action_input : EvalEnv → Json → EvalEnv
with_action_input e input = record e { action_input = some input }

unfoldable pub with_exec_result : EvalEnv → Json → EvalEnv
with_exec_result e result = record e { exec_result = some result }

unfoldable pub with_call : EvalEnv → CallOutcome → EvalEnv
with_call e call = record e { call = some call }

unfoldable pub with_join : EvalEnv → JoinEnv → EvalEnv
with_join e joined = record e { join = some joined }

unfoldable pub with_env : EvalEnv → PublicEnv → EvalEnv
with_env e env = record e { env = env }

module _ (host : Host) where
  -- `first` is the first action row, `prev` the last.
  pub with_wfah : EvalEnv → Wfah → ValidRules → EvalEnv
  unfolding project_entry project_valid
  with_wfah env wfah rules =
      let actions = filter (λ e. is_action (parse_marker (WfahEntry.action e)).kind) wfah in
      record env {
        wfah = map (λ e. project_entry host e rules) wfah;
        valid = project_valid host wfah rules;
        first = map_opt (λ e. project_entry host e rules) (head? actions);
        prev = map_opt (λ e. project_entry host e rules) (last? actions);
        branch_round = live_round wfah;
      }

  call_json : CallOutcome → Json
  call_json c = obj (
      (codes "result", c.result)
      ∷ (codes "status", string c.status)
      ∷ (codes "wfe_id", opt_string (map_opt host.uuid_text c.wfe_id))
      ∷ [])

  no_call : Json
  no_call = obj ((codes "result", null) ∷ (codes "status", null) ∷ (codes "wfe_id", null) ∷ [])

  -- `zen_context`, with `Utc::now()` as its argument
  pub zen_context : EvalEnv → Instant → Json
  unfolding call_json no_call
  zen_context e now =
      let joined = unwrap_or (map_opt join_json e.join) (obj [], arr []) in
      obj (
        (codes "$ctx", e.ctx)
        ∷ (codes "$wfah", arr e.wfah)
        ∷ (codes "$valid", arr e.valid)
        ∷ (codes "$prev", unwrap_or e.prev empty_entry_shell)
        ∷ (codes "$first", unwrap_or e.first empty_entry_shell)
        ∷ (codes "$node", opt_string e.node)
        ∷ (codes "$actor", opt_json (map_opt (actor_json host) e.actor))
        ∷ (codes "$wfe_id", opt_string (map_opt host.uuid_text e.wfe_id))
        ∷ (codes "$action", obj ((codes "input", opt_json e.action_input) ∷ []))
        ∷ (codes "$exec", obj ((codes "result", opt_json e.exec_result) ∷ []))
        ∷ (codes "$call", unwrap_or (map_opt call_json e.call) no_call)
        ∷ (codes "$timestamp", string (host.format_timestamp now))
        ∷ (codes "$branches", joined.0)
        ∷ (codes "$arrived", joined.1)
        ∷ (codes "$env", env_json e.env)
        ∷ (codes "$branch_round", opt_number e.branch_round)
        ∷ [])

  zen_error : Text → Text → EngineError
  zen_error expr e = zen_evaluation (codes "'" ++ (expr ++ (codes "': " ++ e)))

  run_zen : Text → EvalEnv → Instant → Fallible Json
  unfolding zen_error
  run_zen expr env now = elim (host.zen expr (zen_context env now)) [
    | ok v ↦ ok v
    | err e ↦ err (zen_error expr e)
  ]

  bool_result : Text → Json → Fallible Bool
  bool_result expr v = elim (as_bool v) [
    | some b ↦ ok b
    | none ↦ err (zen_evaluation (codes "'" ++ (expr ++ codes "' boolean sonuç üretmedi")))
  ]

  unfoldable pub evaluate_bool : Text → EvalEnv → Instant → Fallible Bool
  unfolding run_zen bool_result
  evaluate_bool expr env now =
      assert_refs_defined expr env.env.vars >>= λ _. run_zen expr env now >>= bool_result expr

  pub evaluate_value : Text → EvalEnv → Instant → Fallible Json
  unfolding run_zen
  evaluate_value expr env now = assert_refs_defined expr env.env.vars >>= λ _. run_zen expr env now
