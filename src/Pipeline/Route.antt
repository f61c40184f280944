-- ===== src/Pipeline/Route.antt =====
-- crates/wfe-core/src/v22/pipeline.rs: where a transition goes (`resolve_wft`), and what a terminal
-- makes of the context. All readings of the clock within a transition are one argument.
pub mod Branches
pub mod Targets
use agnoflow_engine.Prelude.{
  ℕ, ◌+◌, Bool, true, false, ◌&&◌, ◌||◌, not, Option, none, some, List, [], ◌∷◌, ◌++◌, ◌==◌, ltb,
  leb, if◌then◌else◌, Text, Dict, codes, text_eq, find, length, map, reverse, is_some, is_empty,
  unwrap_or, trim, map_opt, ok, err, ◌>>=◌,
}
use Prim.Native.Nat.{max}
use agnoflow_engine.Types.Json.{Json, Fields, end, object, insert_field, string, obj, arr}
use agnoflow_engine.Types.Errors.{Fallible, invalid_wfd, no_condition_matched}
use agnoflow_engine.Types.Actor.{Uuid, Instant, Actor}
use agnoflow_engine.Types.Wfah.{Wfah, u32}
use agnoflow_engine.Types.Wfd.{
  WftTarget, WftCondition, JoinMode, JoinRule, ParallelSpec, Wft, WfesEffects, Terminal, Wfd,
}
use agnoflow_engine.Types.Host.{Host}
use agnoflow_engine.Types.Commit.{CallSite}
use agnoflow_engine.Env.{PublicEnv}
use agnoflow_engine.Eval.{
  EvalEnv, CallOutcome, JoinEnv, new, with_wfah, with_node, with_actor, with_wfe_id,
  with_action_input, with_call, with_join, evaluate_bool,
}
use agnoflow_engine.Effects.{EffectEnv, resolve_value, apply_effects}
use agnoflow_engine.Ledger.Valid.{for_version}
use agnoflow_engine.Outcome.{
  CommitOutcome, CollapseCause, move_to, terminal, failed, fork_to, branch_move_to, branch_arrived,
  join_complete, collapse_to,
}
use agnoflow_engine.Pipeline.Graph.{fork_subgraph}
use agnoflow_engine.Pipeline.Routing.{contains}
use agnoflow_engine.Pipeline.Join.{rule_text}

abbrev expr_rule : Option Text → JoinRule
expr_rule none = JoinRule.all
expr_rule (some e) = if is_empty (trim e) then JoinRule.all else JoinRule.expr (trim e)

-- `ParallelSpec::join_rule`
abbrev mode_rule : JoinMode → Option ℕ → Option Text → JoinRule
mode_rule JoinMode.and threshold when = JoinRule.all
mode_rule JoinMode.or threshold when = JoinRule.quorum (max (unwrap_or threshold 1) 1)
mode_rule JoinMode.expr threshold when = expr_rule when

pub join_rule : ParallelSpec → JoinRule
unfolding trim
join_rule p = mode_rule p.join_mode p.join_threshold p.join_when

pub record BranchMode : Type 0 where
  pub join : WftTarget
  pub from_node : Text
  pub others_active : ℕ
  pub rule : JoinRule
  pub all_entries : List Text
  pub arrived_entries : List Text

pub data WftMode : Type 0 where
  start single : WftMode
  branch : BranchMode → WftMode

-- What a route is asked about: the arguments of `resolve_wft` but for the route and its mode.
pub record Situation : Type 0 where
  pub wfd : Wfd
  pub wfah : Wfah
  pub actor : Actor
  pub wfe_id : Uuid
  pub action_input : Option Json
  pub call : Option CallOutcome
  pub env : PublicEnv
  pub now : Instant

abbrev pub Routed : Type 0
Routed = CommitOutcome × Json × Option CallSite

abbrev landed_at : WftTarget → CallSite
landed_at (WftTarget.node n) = CallSite.node n
landed_at (WftTarget.terminal t) = CallSite.terminal t

module _ (host : Host) (at : Situation) where
  abbrev terminal_env : EffectEnv
  terminal_env = record {
    actor = at.actor;
    wfe_id = at.wfe_id;
    node = none;
    action_input = at.action_input;
    exec_result = none;
    call = at.call;
    env = at.env;
    now = at.now;
    wfah = at.wfah;
    valid_rules = for_version at.wfd;
  }

  -- the loop over `wfe_end_response`; a later key comes into the map behind
  pub response_fields : Dict Json → Json → Fields → Fallible Fields
  response_fields [] context out = ok out
  response_fields ((k, raw) ∷ kvs) context out =
      resolve_value host raw context terminal_env >>= λ v.
      response_fields kvs context (insert_field k v out)

  abbrev effects_of : Option WfesEffects → Json → Fallible Json
  effects_of none staged = ok staged
  effects_of (some effects) staged = apply_effects host staged effects terminal_env at.now

  -- the end response and the last context
  pub terminal_outcome : Text → Json → Fallible (Json × Json)
  unfolding response_fields
  terminal_outcome terminal_id staged =
      elim (find (λ t. text_eq (Terminal.id t) terminal_id) (Wfd.terminals at.wfd)) [
        | none ↦
            err
              (invalid_wfd (codes "wft hedefi bilinmeyen terminal '" ++ (terminal_id ++ codes "'")))
        | some t ↦ effects_of t.wfes_effects staged >>= λ final_ctx.
            response_fields t.wfe_end_response final_ctx end >>= λ response.
            ok (object response, final_ctx)
      ]

  abbrev with_input : EvalEnv → EvalEnv
  with_input e = elim at.action_input [ some input ↦ with_action_input e input | none ↦ e ]

  abbrev with_outcome : EvalEnv → EvalEnv
  with_outcome e = elim at.call [ some c ↦ with_call e c | none ↦ e ]

  abbrev seen_context : Json → EvalEnv
  seen_context staged = with_wfah host (new staged) at.wfah (for_version at.wfd)

  pub condition_env : Json → EvalEnv
  condition_env staged =
      with_outcome (with_input (with_wfe_id (with_actor (seen_context staged) at.actor) at.wfe_id))

  abbrev pub condition_target : Option Text → Option Text → Fallible WftTarget
  condition_target (some n) none = ok (WftTarget.node n)
  condition_target none (some t) = ok (WftTarget.terminal t)
  condition_target _ _ = err (invalid_wfd (codes "wft condition tam olarak bir hedef içermeli"))

  abbrev default_target : Option WftTarget → Fallible WftTarget
  default_target (some t) = ok t
  default_target none = err no_condition_matched

  -- the first condition that holds
  pub choose : List WftCondition → Option WftTarget → Json → Fallible WftTarget
  unfolding condition_env
  choose [] default staged = default_target default
  choose (c ∷ cs) default staged =
      let rest = choose cs default staged in
      evaluate_bool host c.when (condition_env staged) at.now >>= λ holds.
      if holds then condition_target c.node c.terminal else rest

  -- a target outside the parallel mode
  pub land : WftTarget → Json → Fallible Routed
  unfolding terminal_outcome
  land (WftTarget.node n) staged = ok (move_to n, staged, some (CallSite.node n))
  land (WftTarget.terminal t) staged =
      terminal_outcome t staged >>= λ r. ok (terminal r.0, r.1, some (CallSite.terminal t))

  abbrev same_target : WftTarget → WftTarget → Bool
  same_target (WftTarget.node a) (WftTarget.node b) = text_eq a b
  same_target (WftTarget.terminal a) (WftTarget.terminal b) = text_eq a b
  same_target _ _ = false

  pub join_eval_env : BranchMode → Json → EvalEnv
  join_eval_env mode staged = with_outcome (
      with_input (
        with_join
          (with_wfe_id (with_actor (with_node (seen_context staged) (some mode.from_node)) at.actor)
            at.wfe_id)
          record { all = mode.all_entries; arrived = mode.arrived_entries }))

  -- whether this arrival fills the join
  pub completes : BranchMode → JoinRule → Json → Fallible Bool
  unfolding join_eval_env
  completes mode JoinRule.all staged = ok (mode.others_active == 0)
  completes mode (JoinRule.quorum k) staged = ok (leb k (u32 (length mode.arrived_entries)))
  completes mode (JoinRule.expr e) staged = evaluate_bool host e (join_eval_env mode staged) at.now

  pub unsatisfied : BranchMode → Json
  unsatisfied mode = obj (
      (codes "reason", string (codes "WFD.JoinUnsatisfied"))
      ∷ (codes "join_rule", string (rule_text mode.rule))
      ∷ (codes "arrived", arr (map string mode.arrived_entries))
      ∷ [])

  -- an arrival that does not fill the join: the last one leaves it for ever unfilled
  pub wait_at_join : BranchMode → Json → Routed
  unfolding unsatisfied
  wait_at_join mode staged =
      if mode.others_active == 0
      then (failed (unsatisfied mode), staged, none)
      else (branch_arrived mode.from_node mode.arrived_entries, staged, none)

  pub fill_join : BranchMode → WftTarget → Json → Fallible Routed
  unfolding land
  fill_join mode target staged = land target staged >>= λ r.
      ok
        (join_complete mode.from_node (ltb 0 mode.others_active) mode.arrived_entries r.0, r.1, r.2)

  pub arrive : BranchMode → Json → Fallible Routed
  unfolding completes wait_at_join fill_join
  arrive mode staged = completes mode mode.rule staged >>= λ full.
      if full then fill_join mode mode.join staged else ok (wait_at_join mode staged)

  -- a branch's step to a node that is not the join; a send-back out of the fork ends it
  pub move_branch : BranchMode → Bool → Text → Json → Routed
  move_branch mode send_back n staged =
      if send_back && not (contains (fork_subgraph at.wfd mode.all_entries mode.join) n)
      then (
        collapse_to (some mode.from_node) n CollapseCause.sent_back,
        staged,
        some (CallSite.node n),
      )
      else (branch_move_to mode.from_node n, staged, some (CallSite.node n))

  pub leave_branch : BranchMode → Bool → WftTarget → Json → Fallible Routed
  unfolding move_branch land
  leave_branch mode send_back (WftTarget.node n) staged = ok (move_branch mode send_back n staged)
  leave_branch mode send_back (WftTarget.terminal t) staged = land (WftTarget.terminal t) staged

  pub route_target : WftMode → Bool → WftTarget → Json → Fallible Routed
  unfolding arrive leave_branch land
  route_target start send_back target staged = land target staged
  route_target single send_back target staged = land target staged
  route_target (branch mode) send_back target staged =
      if same_target target mode.join
      then arrive mode staged
      else leave_branch mode send_back target staged

  pub collapse_route : WftMode → WftTarget → Json → Fallible Routed
  unfolding land
  collapse_route (branch mode) (WftTarget.terminal t) staged = land (WftTarget.terminal t) staged
  collapse_route (branch mode) (WftTarget.node n) staged =
      ok
        (collapse_to (some mode.from_node) n CollapseCause.collapse, staged, some (CallSite.node n))
  collapse_route start target staged =
      err (invalid_wfd (codes "collapse wft yalnızca paralel dal içinde geçerli (WOR-56)"))
  collapse_route single target staged =
      err (invalid_wfd (codes "collapse wft yalnızca paralel dal içinde geçerli (WOR-56)"))

  pub fork_route : WftMode → ParallelSpec → Json → Fallible Routed
  unfolding join_rule
  fork_route single p staged = ok (fork_to p.branches p.join (join_rule p), staged, none)
  fork_route start p staged = err (invalid_wfd (codes "start wft'i parallel olamaz (WOR-31)"))
  fork_route (branch mode) p staged =
      err (invalid_wfd (codes "nested parallel çalıştırılamaz (WOR-31)"))

  unfoldable pub resolve_wft : Wft → Json → WftMode → Bool → Fallible Routed
  unfolding collapse_route fork_route route_target choose
  resolve_wft (Wft.collapse target) staged mode send_back = collapse_route mode target staged
  resolve_wft (Wft.parallel p) staged mode send_back = fork_route mode p staged
  resolve_wft (Wft.node n) staged mode send_back =
      route_target mode send_back (WftTarget.node n) staged
  resolve_wft (Wft.terminal t) staged mode send_back =
      route_target mode send_back (WftTarget.terminal t) staged
  resolve_wft (Wft.conditional cs default) staged mode send_back =
      choose cs default staged >>= λ target. route_target mode send_back target staged
  resolve_wft (Wft.send_back targets) staged mode send_back = err (
      invalid_wfd (
        codes
          "geri gönderme menüsü (`wft: {targets}`) yalnız transitions[].wft içinde kullanılabilir"))
