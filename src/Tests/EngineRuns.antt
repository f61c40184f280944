-- ===== src/Tests/EngineRuns.antt =====
-- The engine's theorems (crates/wfe-core/src/v22/pipeline.rs) at the runs of a start, of an action that
-- writes, and of a fork.
use agnoflow_engine.Access.Resolver.{resolve_c_orgu}
use agnoflow_engine.Access.Matcher.{wanted_ident, authorize_with_delegation_anchored}
use agnoflow_engine.Access.Grants.{node_entered_at, open_grants, authorize_node}
use agnoflow_engine.Prelude.{
  ℕ, ◌+◌, ◌^◌, ◌<◌, ◌≡◌, ◌↔◌, inr, refl, true, false, none, some, List, [], ◌∷◌, ◌++◌, codes, ok,
  err, Text, All, arith, lookup, text_eq, opt_eq, split, strip_prefix, strip_suffix, rsplit_once,
  parse_usize,
}
use agnoflow_engine.Types.Json.{get_field, Json, null, bool, string, obj, get}
use agnoflow_engine.Types.Equality.{json_eq}
use agnoflow_engine.Types.Actor.{ca, grant, ResolvedCandidate}
use agnoflow_engine.Types.Wfah.{extended}
use agnoflow_engine.Types.Wfd.{ActionDef, AutoexecDef, Retrier, NodeDef, Wft}
use agnoflow_engine.Types.Wfes.{Wfes}
use agnoflow_engine.Types.Commit.{ExecEnv}
use agnoflow_engine.Effects.{get_path}
use agnoflow_engine.Ledger.Order.{Increasing}
use agnoflow_engine.ContextTypes.{field_schema, validate_at, validate_input}
use agnoflow_engine.Pipeline.{is_terminal_class}
use agnoflow_engine.Pipeline.Sla.{deadline_due}
use agnoflow_engine.Pipeline.Input.{collect_leaf_paths, validate_action_input}
use agnoflow_engine.Pipeline.Claims.{ClaimCheck, claimed_at_node, can_claim}
use agnoflow_engine.Pipeline.Claims.Pool.{Claimable, Previewed, can_claim_sound, can_claim_iff}
use agnoflow_engine.Pipeline.Candidates.{stamp, resolve_candidates, node_candidates}
use agnoflow_engine.Pipeline.Candidates.Stamped.{Extends, node_candidates_sound}
use agnoflow_engine.Pipeline.Triggers.{fresh, retry_loop, execute_with_retry}
use agnoflow_engine.Pipeline.Triggers.Retries.{retry_loop_enough}
use agnoflow_engine.Pipeline.Apply.Admitted.{Applied, apply_sound}
use agnoflow_engine.Pipeline.Apply.Numbered.{apply-Increasing}
use agnoflow_engine.Pipeline.Apply.Written.{here, apply-written}
use agnoflow_engine.Pipeline.Start.Landed.{Started, start_sound}
use agnoflow_engine.Sim.{to_wfes}
use agnoflow_engine.Tests.Data.{host, org, alice, ledger, wfd}
use agnoflow_engine.Tests.Flow.{engine, exec, flow, action_to, opening, request}
use agnoflow_engine.Tests.FlowRuns.{
  with_paper, clerk, with_owner, fork_commit, fork_is_committed, note_request, note_is_committed,
  new_flow, is_started,
}

apply_sound_example : Applied engine flow 2 with_owner (request (codes "split") none) fork_commit
apply_sound_example =
    apply_sound engine flow 2 with_owner (request (codes "split") none) fork_is_committed

apply-Increasing_example : Increasing (extended with_owner.wfah fork_commit.wfah_entries)
unfolding to_wfes
apply-Increasing_example =
    apply-Increasing engine flow 2 with_owner (request (codes "split") none) fork_is_committed
      (tt, tt) (omega arith, tt) (omega arith)

x_is_new : opt_eq json_eq (get (codes "x") with_owner.dynctx) (some (bool true)) ≡ false
unfolding get to_wfes get_field
x_is_new = refl

apply-written_example : validate_at host flow.context (codes "x") (bool true) ≡ []
apply-written_example =
    apply-written engine flow 2 with_owner note_request (codes "x") (bool true) note_is_committed
      refl here x_is_new

start_sound_example : Started engine flow 1 opening new_flow
start_sound_example = start_sound engine flow 1 opening is_started

abbrev unowned : Wfes
unowned = to_wfes with_paper none 2

alice_may : can_claim host org 2 flow unowned alice none ≡ ok ClaimCheck.claimable
unfolding can_claim to_wfes deadline_due lookup text_eq authorize_node
    authorize_with_delegation_anchored resolve_c_orgu
alice_may = refl

runs : is_terminal_class unowned.status ≡ false
unfolding to_wfes
runs = refl

in_time : deadline_due unowned 2 ≡ false
unfolding deadline_due to_wfes
in_time = refl

is_free : claimed_at_node unowned none ≡ inr (codes "review")
unfolding to_wfes
is_free = refl

can_claim_sound_example : Claimable host org 2 flow unowned alice none
can_claim_sound_example = can_claim_sound host org 2 flow unowned alice none alice_may

can_claim_iff_example :
    (can_claim host org 2 flow unowned alice none ≡ ok ClaimCheck.claimable)
    ↔ Previewed host org 2 flow unowned alice none
can_claim_iff_example = can_claim_iff host org 2 flow unowned alice none runs in_time is_free

-- an action that requires `a`, and may write below `b`
abbrev asks : ActionDef
asks = record (action_to (codes "left") (Wft.node (codes "done"))) {
  input = record { required = codes "a" ∷ []; optional = codes "b" ∷ [] };
}

abbrev answer : Json
answer = obj ((codes "a", bool true) ∷ (codes "b", obj ((codes "c", string (codes "x")) ∷ [])) ∷ [])

-- the types of `a` and `b`
abbrev typed : Json
typed = obj (
    (
      codes "properties",
      obj (
          (codes "a", obj ((codes "type", string (codes "boolean")) ∷ []))
          ∷ (codes "b", obj ((codes "type", string (codes "object")) ∷ []))
          ∷ []),
    )
    ∷ [])

answer_is_accepted : validate_action_input host asks answer typed ≡ ok tt
unfolding validate_action_input collect_leaf_paths validate_input field_schema text_eq split
    strip_prefix get_path get get_field
answer_is_accepted = refl

-- the pool of the node, and one whom the fired step of its escalation lets in
abbrev by_pool : List ResolvedCandidate
by_pool = record clerk { authority = some ca } ∷ []

abbrev by_grant : List ResolvedCandidate
by_grant =
    record {
      orgu_id = none;
      role = [];
      user_id = none;
      user_ident = some (codes "bob");
      any_orgu = true;
      authority = some grant;
    }
    ∷ []

both_work :
    node_candidates host org (obj []) ledger 1 9 (codes "review") wfd ≡ ok (by_pool ++ by_grant)
unfolding node_candidates lookup text_eq resolve_c_orgu open_grants node_entered_at rsplit_once
    parse_usize wanted_ident strip_prefix strip_suffix
both_work = refl

node_candidates_sound_example :
    (node : NodeDef) × (lookup (codes "review") wfd.nodes ≡ some node)
    × (own : List ResolvedCandidate) × (resolve_candidates host org (obj []) ledger 1 9 node.c_a
        ≡ ok own)
    × Extends host org
        (obj [])
        ledger
        1
        9
        (open_grants wfd ledger (codes "review"))
        (agnoflow_engine.Prelude.map (stamp ca) own)
        (by_pool ++ by_grant)
node_candidates_sound_example =
    node_candidates_sound host org (obj []) ledger 1 9 (codes "review") wfd both_work

abbrev job : AutoexecDef
job = record { timeout_seconds = 5; config = null; wfes_effects = none }

abbrev job_env : ExecEnv
job_env = record {
  wfe_id = 5;
  context = obj [];
  node = none;
  actor = alice;
  wfah = [];
  action_input = none;
  env = engine.env;
  valid_rules = record { send_back_actions = [] };
}

abbrev twice : List Retrier
twice = record { error_equals = codes "WFD.ALL" ∷ []; max_attempts = 2 } ∷ []

retry_loop_enough_example :
    retry_loop exec job job_env 7 0 (fresh twice) ≡ some (execute_with_retry exec job job_env twice)
retry_loop_enough_example = retry_loop_enough exec job job_env twice 7 (omega arith)
