-- ===== src/Ledger/Projection.antt =====
-- crates/wfe-core/src/v22/eval.rs: the ledger's rows as an expression sees them.
use agnoflow_engine.Prelude.{
  Bool, false, ◌&&◌, not, none, some, List, [], ◌∷◌, ◌++◌, ◌==◌, Text, codes, text_eq, any,
}
use agnoflow_engine.Types.Json.{
  Json, null, bool, number, pos_int, string, obj, opt_string, opt_json, opt_number,
}
use agnoflow_engine.Types.Actor.{Uuid, Actor}
use agnoflow_engine.Types.Wfah.{Wfah, WfahEntry}
use agnoflow_engine.Types.Host.{Host}
use agnoflow_engine.Ledger.Kind.{
  WfahKind, action, deadline, escalation, escalation_skipped, claim_taken, claim_released, trigger,
  call_return, call_truncated, fork, branch_arrived, join, collapse, branch_cancelled,
  branch_superseded, parse_marker,
}
use agnoflow_engine.Ledger.Valid.{ValidRules, is_send_back, derive_valid}

-- the names that serde writes (`rename_all = "snake_case"`)
kind_text : WfahKind → Text
kind_text action = codes "action"
kind_text deadline = codes "deadline"
kind_text escalation = codes "escalation"
kind_text escalation_skipped = codes "escalation_skipped"
kind_text claim_taken = codes "claim_taken"
kind_text claim_released = codes "claim_released"
kind_text trigger = codes "trigger"
kind_text call_return = codes "call_return"
kind_text call_truncated = codes "call_truncated"
kind_text fork = codes "fork"
kind_text branch_arrived = codes "branch_arrived"
kind_text join = codes "join"
kind_text collapse = codes "collapse"
kind_text branch_cancelled = codes "branch_cancelled"
kind_text branch_superseded = codes "branch_superseded"

-- `seen.insert(key)` of a `HashSet<(String, Uuid)>`: was the key new?
abbrev pub seen_before : Text → Uuid → List (Text × Uuid) → Bool
seen_before node id seen = any (λ (k : Text × Uuid). text_eq k.0 node && k.1 == id) seen

unfoldable pub empty_entry_shell : Json
empty_entry_shell = obj (
    (codes "seq", null)
    ∷ (codes "action", null)
    ∷ (codes "actor", null)
    ∷ (codes "input", null)
    ∷ (codes "at", null)
    ∷ (codes "kind", null)
    ∷ (codes "from_node", null)
    ∷ (codes "to_node", null)
    ∷ (codes "branch_entry", null)
    ∷ (codes "branch_round", null)
    ∷ (codes "is_send_back", null)
    ∷ [])

module _ (host : Host) where
  -- serde's form of an `Actor`
  unfoldable pub actor_json : Actor → Json
  actor_json a = obj (
      (codes "orgu_id", string (host.uuid_text a.orgu_id))
      ∷ (codes "user_id", string (host.uuid_text a.user_id))
      ∷ (codes "role", string a.role)
      ∷ [])

  pub entry_kvs : WfahEntry → ValidRules → List (Text × Json)
  unfolding actor_json kind_text
  entry_kvs e rules =
      (codes "seq", number (pos_int e.seq))
      ∷ (codes "action", string e.action)
      ∷ (codes "actor", actor_json e.actor)
      ∷ (codes "input", opt_json e.input)
      ∷ (codes "at", string (host.format_timestamp e.applied_at))
      ∷ (codes "kind", string (kind_text (parse_marker e.action).kind))
      ∷ (codes "from_node", opt_string e.from_node)
      ∷ (codes "to_node", opt_string e.to_node)
      ∷ (codes "branch_entry", opt_string e.branch_entry)
      ∷ (codes "branch_round", opt_number e.branch_round)
      ∷ (codes "is_send_back", bool (is_send_back rules e.action))
      ∷ []

  unfoldable pub project_entry : WfahEntry → ValidRules → Json
  unfolding entry_kvs
  project_entry e rules = obj (entry_kvs e rules)

  pub project_valid_entry : WfahEntry → ValidRules → Bool → Bool → Json
  unfolding entry_kvs
  project_valid_entry e rules first_by_actor first_by_orgu = obj (
      entry_kvs e rules
      ++ (codes "first_by_actor_at_node", bool first_by_actor)
        ∷ (codes "first_by_orgu_at_node", bool first_by_orgu)
        ∷ [])

  -- the rows in order, with the keys seen so far
  project_rows : ValidRules → List (Text × Uuid) → List (Text × Uuid) → List WfahEntry → List Json
  unfolding project_valid_entry
  project_rows rules seen_actor seen_orgu [] = []
  project_rows rules seen_actor seen_orgu (e ∷ es) = elim e.from_node [
    | none ↦ project_valid_entry e rules false false ∷ project_rows rules seen_actor seen_orgu es
    | some node ↦
        project_valid_entry e rules (not (seen_before node e.actor.user_id seen_actor))
          (not (seen_before node e.actor.orgu_id seen_orgu))
        ∷ project_rows rules ((node, e.actor.user_id) ∷ seen_actor)
            ((node, e.actor.orgu_id) ∷ seen_orgu) es
  ]

  unfoldable pub project_valid : Wfah → ValidRules → List Json
  unfolding project_rows
  project_valid wfah rules = project_rows rules [] [] (derive_valid wfah rules)
