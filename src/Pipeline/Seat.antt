-- ===== src/Pipeline/Seat.antt =====
-- crates/wfe-core/src/v22/pipeline.rs: the gates of `Engine::apply`, and where an action is taken:
-- the node, or the branch of a parallel instance.
pub mod Gate
use agnoflow_engine.Prelude.{
  ℕ, ◌+◌, ◌-◌, Bool, true, false, ◌&&◌, not, Option, none, some, List, [], ◌∷◌, ◌++◌, ◌==◌,
  if◌then◌else◌, Text, Dict, codes, text_eq, opt_eq, any, filter, length, map, lookup, is_some,
  and_then, map_opt, unwrap_or, Result, ok, err, ◌>>=◌,
}
use agnoflow_engine.Types.Json.{Json, null, object, end, obj}
use agnoflow_engine.Types.Errors.{
  Fallible, EngineError, wfe_terminal, wfe_expired, not_claimed, not_owner, invalid_wfd,
  invalid_input, transition_not_found, ambiguous_action, permission_denied, start_not_eligible,
}
use agnoflow_engine.Types.Actor.{Uuid, Instant, Actor}
use agnoflow_engine.Types.Wfah.{Wfah, WfahEntry, u32, extended}
use agnoflow_engine.Types.Wfd.{
  CandidateActor, WfesEffects, WftTarget, Wft, ActionDef, NodeDef, StartRule, Wfd,
}
use agnoflow_engine.Types.Wfes.{BranchState, branch_is_active, Wfes}
use agnoflow_engine.Types.Host.{Host}
use agnoflow_engine.Types.Commit.{
  CallSite, AutoexecRunner, StagedCall, ClaimRecheck, TransitionCommit, NewWfe,
}
use agnoflow_engine.Env.{RunEnv}
use agnoflow_engine.Eval.{
  EvalEnv, new, with_wfah, with_node, with_actor, with_wfe_id, with_action_input, evaluate_bool,
}
use agnoflow_engine.Effects.{EffectEnv, apply_effects}
use agnoflow_engine.Ledger.Valid.{for_version}
use agnoflow_engine.Outcome.{CommitOutcome}
use agnoflow_engine.Access.Ports.{OrgPort}
use agnoflow_engine.Access.Matcher.{MatchEnv, authorize, authorize_anchored}
use agnoflow_engine.Duration.{Failure, error, overflow, parse_iso8601_duration}
use agnoflow_engine.Pipeline.{is_terminal_class}
use agnoflow_engine.Pipeline.Sla.{deadline_due, later}
use agnoflow_engine.Pipeline.Routing.{visited_nodes, select_wft}
use agnoflow_engine.Pipeline.Rows.{stamp_movement, next_seq, branch_round_of, all_entry_nodes}
use agnoflow_engine.Pipeline.Join.{
  Trigger, TriggerKind, arrived_entries_with, stage_parallel_markers,
}
use agnoflow_engine.Pipeline.Route.{
  WftMode, BranchMode, single, branch, Situation, Routed, resolve_wft,
}
use agnoflow_engine.Pipeline.Input.{validate_action_input, guard_written_ctx}
use agnoflow_engine.Pipeline.Triggers.{Staging, TriggerScope, run_triggers}
use agnoflow_engine.Pipeline.Candidates.{candidates_at}
use agnoflow_engine.Pipeline.Calls.{raise, stage_calls, stage_claim_recheck}

-- What the engine runs on: the libraries, the organisation store, the runner of autoexecs, the
-- environment, and the last instant that chrono holds.
pub record Engine : Type 0 where
  pub host : Host
  pub org : OrgPort
  pub exec : AutoexecRunner
  pub env : RunEnv
  pub max_instant : Instant

-- The arguments of `apply` but for the document and the instance.
pub record Request : Type 0 where
  pub actor : Actor
  pub action : Text
  pub input : Json
  pub node_hint : Option Text
  pub target : Option Text

-- Where the action is taken: the node, the branch that stands there, and the action's record.
pub record Seat : Type 0 where
  pub node : Text
  pub branch : Option BranchState
  pub transition : ActionDef

abbrev pub Done : Type 0
Done = Unit {0}

-- the owner has to be the one who acts
pub check_owner : Option Uuid → Actor → Fallible Done
check_owner none actor = err not_claimed
check_owner (some owner) actor = if owner == actor.user_id then ok tt else err not_owner

-- the action's record, if the action is taken at this node
pub action_from : Wfd → Text → Text → Option ActionDef
action_from wfd action node =
    and_then (lookup action wfd.actions)
      λ a. if text_eq (ActionDef.from a) node then some a else none

check_hint : Option Text → Text → Fallible Done
check_hint none current = ok tt
check_hint (some hint) current =
    if text_eq hint current
    then ok tt
    else err (
        invalid_input (
          codes "node '"
          ++ (hint ++ (codes "' bu WFE'nin aktif node'u değil ('" ++ (current ++ codes "')")))))

abbrev found : Option ActionDef → Text → Fallible ActionDef
found none action = err (transition_not_found action)
found (some a) action = ok a

abbrev current_of : Wfes → Fallible Text
current_of wfes = elim wfes.current_node [
  | none ↦ err (invalid_wfd (codes "aktif WFE'nin current_node'u yok"))
  | some n ↦ ok n
]

abbrev pub seat_at : Text → Option BranchState → ActionDef → Seat
seat_at node b a = record { node = node; branch = b; transition = a }

unfoldable pub active_branches : Wfes → List BranchState
active_branches wfes = filter (λ b. branch_is_active (BranchState.status b)) wfes.branches

abbrev hint_names : List BranchState → Text → Bool
hint_names active hint = any (λ b. text_eq (BranchState.branch_node b) hint) active

check_branch_hint : Option Text → List BranchState → Fallible Done
check_branch_hint none active = ok tt
check_branch_hint (some hint) active =
    if not (hint_names active hint)
    then err (invalid_input (codes "node '" ++ (hint ++ codes "' aktif bir paralel kol değil")))
    else ok tt

-- a branch is passed over if the hint names another node
abbrev hinted : Option Text → Text → Bool
hinted none node = true
hinted (some hint) node = text_eq hint node

abbrev one_match : Text → List (BranchState × ActionDef) → Fallible (BranchState × ActionDef)
one_match action [] = err (transition_not_found action)
one_match action (m ∷ []) = ok m
one_match action (m ∷ n ∷ ms) = err (
    ambiguous_action action
      (map (λ (x : BranchState × ActionDef). BranchState.branch_node x.0) (m ∷ n ∷ ms)))

module _ (engine : Engine) (wfd : Wfd) (now : Instant) where
  open engine use {host}

  module _ (wfes : Wfes) (req : Request) where
    abbrev guard_env : Text → EvalEnv
    guard_env node =
        with_action_input
          (with_wfe_id
            (with_actor
              (with_node (with_wfah host (new wfes.dynctx) wfes.wfah (for_version wfd)) (some node))
              req.actor)
            wfes.wfe_id)
          req.input

    pub guard_holds : ActionDef → Text → Fallible Bool
    guard_holds a node = elim a.when [
      | none ↦ ok true
      | some expr ↦ evaluate_bool host expr (guard_env node) now
    ]

    -- outside of the parallel mode: the node, the owner, the action's record, its guard
    pub single_seat : Fallible Seat
    unfolding check_hint check_owner action_from guard_holds
    single_seat = do
      node ← current_of wfes
      hint_fits ← check_hint req.node_hint node
      owner_fits ← check_owner wfes.assigned_to req.actor
      a ← found (action_from wfd req.action node) req.action
      holds ← guard_holds a node
      if holds then ok (seat_at node none a) else err (transition_not_found req.action)

    abbrev matched : BranchState → Fallible (Option ActionDef)
    matched b =
        if not (hinted req.node_hint b.branch_node)
        then ok none
        else elim (action_from wfd req.action b.branch_node) [
          | none ↦ ok none
          | some a ↦ guard_holds a b.branch_node >>= λ holds. ok (if holds then some a else none)
        ]

    -- the loop over the active branches
    pub match_branches : List BranchState → Fallible (List (BranchState × ActionDef))
    unfolding action_from guard_holds
    match_branches [] = ok []
    match_branches (b ∷ bs) = matched b >>= λ (m : Option ActionDef).
        match_branches bs >>= λ rest. ok (elim m [ none ↦ rest | some a ↦ (b, a) ∷ rest ])

    pub parallel_seat : Fallible Seat
    unfolding check_branch_hint match_branches check_owner active_branches
    parallel_seat = do
      hint_fits ← check_branch_hint req.node_hint (active_branches wfes)
      ms ← match_branches (active_branches wfes)
      m ← one_match req.action ms
      owner_fits ← check_owner (BranchState.claimed_by m.0) req.actor
      ok (seat_at (BranchState.branch_node m.0) (some m.0) m.1)

    -- the gates at the door, then the seat
    unfoldable pub seat_of : Fallible Seat
    unfolding single_seat parallel_seat
    seat_of =
        if is_terminal_class wfes.status
        then err wfe_terminal
        else if deadline_due wfes now
        then err wfe_expired
        else if is_some wfes.join_target
        then parallel_seat
        else single_seat
