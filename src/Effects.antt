-- ===== src/Effects.antt =====
-- crates/wfe-core/src/v22/effects.rs: what a transition writes into the context. A value of an
-- effect is JSON whose texts name parts of the situation by `$…`.
pub mod Paths
pub mod Apply
use agnoflow_engine.Prelude.{
  Option, none, some, List, [], ◌∷◌, if◌then◌else◌, Text, Dict, codes, text_eq, split, starts_with,
  strip_prefix, and_then, map_opt, unwrap_or, ok, err, ◌>>=◌,
}
use agnoflow_engine.Types.Json.{
  Json, null, bool, number, string, array, object, Items, nil, cons, Fields, end, field, get_field,
  insert_field, get, opt_string,
}
use agnoflow_engine.Types.Errors.{Fallible, effect_value}
use agnoflow_engine.Types.Actor.{Uuid, Instant, Actor}
use agnoflow_engine.Types.Wfah.{Wfah}
use agnoflow_engine.Types.Wfd.{SetWhenEntry, WfesEffects}
use agnoflow_engine.Types.Host.{Host}
use agnoflow_engine.Env.{PublicEnv, resolve_string}
use agnoflow_engine.Ledger.Valid.{ValidRules}
use agnoflow_engine.Ledger.Projection.{actor_json}
use agnoflow_engine.Eval.{
  EvalEnv, CallOutcome, new, with_wfah, with_actor, with_wfe_id, with_node, with_env,
  with_action_input, evaluate_bool,
}

pub record EffectEnv : Type 0 where
  pub actor : Actor
  pub wfe_id : Uuid
  pub node : Option Text
  pub action_input : Option Json
  pub exec_result : Option Json
  pub call : Option CallOutcome
  pub env : PublicEnv
  pub now : Instant
  pub wfah : Wfah
  pub valid_rules : ValidRules

-- `get_path` and `set_path`, on the parts of the path
pub get_parts : List Text → Json → Option Json
get_parts [] value = some value
get_parts (part ∷ parts) value = and_then (get part value) (get_parts parts)

unfoldable pub get_path : Json → Text → Option Json
unfolding get_parts
get_path value dotted = get_parts (split b'.' dotted) value

-- the object at a part on the way; what is absent or is no object becomes an empty one
abbrev pub object_of : Option Json → Fields
object_of (some (object m)) = m
object_of _ = end

abbrev pub child : Text → Fields → Fields
child part root = object_of (get_field part root)

pub set_parts : List Text → Json → Fields → Fields
set_parts [] value root = root
set_parts (part ∷ []) value root = insert_field part value root
set_parts (part ∷ next ∷ parts) value root =
    insert_field part (object (set_parts (next ∷ parts) value (child part root))) root

pub set_path : Fields → Text → Json → Fields
unfolding set_parts
set_path root dotted value = set_parts (split b'.' dotted) value root

-- `get_path(source, path).cloned().unwrap_or(Value::Null)`
abbrev pub path_or_null : Json → Text → Json
path_or_null source path = unwrap_or (get_path source path) null

-- a context that is no object counts as an empty one
abbrev pub root_of : Json → Fields
root_of (object m) = m
root_of _ = end

module _ (host : Host) where
  -- the texts that are not one of the prefixes below
  pub dollar_call : Text → EffectEnv → Fallible Json
  dollar_call s env =
      if text_eq s (codes "$call.status")
      then ok (opt_string (map_opt CallOutcome.status env.call))
      else if text_eq s (codes "$call.wfe_id")
      then ok (opt_string (map_opt host.uuid_text (and_then env.call CallOutcome.wfe_id)))
      else if starts_with (codes "$exec.response.") s
      then err
          (effect_value (codes "'$exec.response.*' kaldırıldı (M7) — '$exec.result.*' kullanın"))
      else ok (string s)

  pub dollar_path : Text → Json → EffectEnv → Fallible Json
  unfolding dollar_call
  dollar_path s context env = elim (strip_prefix (codes "$ctx.") s) [
    | some path ↦ ok (path_or_null context path)
    | none ↦ elim (strip_prefix (codes "$action.input.") s) [
      | some path ↦ ok (path_or_null (unwrap_or env.action_input null) path)
      | none ↦ elim (strip_prefix (codes "$exec.result.") s) [
        | some path ↦ ok (path_or_null (unwrap_or env.exec_result null) path)
        | none ↦ elim (strip_prefix (codes "$call.result.") s) [
          | some path ↦
              ok (path_or_null (unwrap_or (map_opt CallOutcome.result env.call) null) path)
          | none ↦ dollar_call s env
        ]
      ]
    ]
  ]

  pub dollar_name : Text → Json → EffectEnv → Fallible Json
  unfolding dollar_path
  dollar_name s context env =
      if text_eq s (codes "$actor")
      then ok (actor_json host env.actor)
      else if text_eq s (codes "$timestamp")
      then ok (string (host.format_timestamp env.now))
      else if text_eq s (codes "$wfe_id")
      then ok (string (host.uuid_text env.wfe_id))
      else if text_eq s (codes "$node")
      then ok (opt_string env.node)
      else dollar_path s context env

  -- `$env` first, and inside a text too
  pub resolve_dollar_string : Text → Json → EffectEnv → Fallible Json
  unfolding dollar_name
  resolve_dollar_string s context env = resolve_string host s env.env.vars >>= λ (v : Option Json).
      elim v [ some r ↦ ok r | none ↦ dollar_name s context env ]

  mutual
    unfolding resolve_dollar_string

    pub resolve_value : Json → Json → EffectEnv → Fallible Json
    resolve_value null context env = ok null
    resolve_value (bool b) context env = ok (bool b)
    resolve_value (number n) context env = ok (number n)
    resolve_value (string s) context env = resolve_dollar_string s context env
    resolve_value (array xs) context env = resolve_items xs context env >>= λ ys. ok (array ys)
    resolve_value (object m) context env = resolve_fields m context env >>= λ out. ok (object out)

    pub resolve_items : Items → Json → EffectEnv → Fallible Items
    resolve_items nil context env = ok nil
    resolve_items (cons x xs) context env =
        let rest = resolve_items xs context env in
        resolve_value x context env >>= λ y. rest >>= λ ys. ok (cons y ys)

    pub resolve_fields : Fields → Json → EffectEnv → Fallible Fields
    resolve_fields end context env = ok end
    resolve_fields (field k v m) context env =
        let rest = resolve_fields m context env in
        resolve_value v context env >>= λ w. rest >>= λ out. ok (field k w out)

  -- the loop over `set`; every value is resolved in the context `context` that came in
  pub set_all : Dict Json → Json → EffectEnv → Fields → Fallible Fields
  unfolding resolve_value set_path
  set_all [] context env root = ok root
  set_all ((path, raw) ∷ entries) context env root =
      resolve_value raw context env >>= λ v. set_all entries context env (set_path root path v)

  abbrev pub effect_eval_env : Json → EffectEnv → EvalEnv
  effect_eval_env context env =
      let base =
        with_env
          (with_node
            (with_wfe_id
              (with_actor (with_wfah host (new context) env.wfah env.valid_rules) env.actor)
              env.wfe_id)
            env.node)
          env.env in
      elim env.action_input [ some input ↦ with_action_input base input | none ↦ base ]

  -- `now` is `Utc::now()`, which a guard's evaluation reads.
  pub set_when_all : List SetWhenEntry → Json → EffectEnv → Instant → Fields → Fallible Fields
  unfolding set_all
  set_when_all [] context env now root = ok root
  set_when_all (entry ∷ entries) context env now root =
      evaluate_bool host entry.when (effect_eval_env context env) now >>= λ holds.
      (if holds then set_all entry.set context env root else ok root)
      >>= set_when_all entries context env now

  unfoldable pub apply_effects : Json → WfesEffects → EffectEnv → Instant → Fallible Json
  unfolding set_when_all
  apply_effects context effects env now =
      set_all effects.set context env (root_of context)
      >>= set_when_all effects.set_when context env now
      >>= λ root. ok (object root)
