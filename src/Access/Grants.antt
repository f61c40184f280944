-- ===== src/Access/Grants.antt =====
-- crates/wfe-core/src/v22/grants.rs: the grant rules (`c_a` and an optional guard) that open a
-- workflow to its viewers and its administrators, the grants that escalation has opened on a node,
-- and the question who may work there. `now` stands for `Utc::now()`.
pub mod Opened
pub mod Admins
pub mod Node
use agnoflow_engine.Prelude.{
  ℕ, ◌+◌, Bool, true, false, ◌&&◌, not, Option, none, some, List, [], ◌∷◌, ◌++◌, if◌then◌else◌,
  ◌==◌, ltb, Text, codes, text_eq, any, is_empty, is_some, and_then, map_opt, opt_eq, unwrap_or,
  rfind, lookup, strip_prefix, strip_suffix, rsplit_once, parse_usize, ok, err, ◌>>=◌,
}
use agnoflow_engine.Types.Errors.{Fallible, unauthorized, invalid_wfd}
use agnoflow_engine.Types.Actor.{Instant, Actor}
use agnoflow_engine.Types.Wfah.{Wfah, WfahEntry}
use agnoflow_engine.Types.Wfd.{
  CaGrantRule, GlobalAction, global_action_text, WfAdminRule, EscalationStep, NodeDef, Wfd,
}
use agnoflow_engine.Types.Wfes.{Wfes}
use agnoflow_engine.Types.Host.{Host}
use agnoflow_engine.Ledger.Valid.{ValidRules, for_version}
use agnoflow_engine.Eval.{new, with_wfah, with_node, with_actor, with_wfe_id, evaluate_bool}
use agnoflow_engine.Access.Ports.{OrgPort}
use agnoflow_engine.Access.Matcher.{
  MatchEnv, AuthDecision, denied, direct, is_authorized, authorize_or_delegated_anchored,
  authorize_with_delegation_anchored,
}

-- the instant of the last row that has moved the instance to a node (v22/pipeline.rs)
unfoldable pub node_entered_at : Wfah → Option Instant
node_entered_at wfah =
    map_opt WfahEntry.applied_at (rfind (λ e. is_some (WfahEntry.to_node e)) wfah)

-- the step that a row `escalate:<node>:<idx>` or `escalate:<node>:<idx>:skipped` fires on the node
pub fired_step : Text → Text → Option ℕ
fired_step node_key action = and_then (strip_prefix (codes "escalate:") action) λ rest.
    and_then (rsplit_once b':' (unwrap_or (strip_suffix (codes ":skipped") rest) rest))
      λ (parts : Text × Text). if text_eq parts.0 node_key then parse_usize parts.1 else none

-- not before the last entry
unfoldable pub since : Option Instant → Instant → Bool
since none at = true
since (some entered) at = not (ltb at entered)

-- does the ledger hold a row that fires the step `i` of the node?
pub fires : Wfah → Text → ℕ → WfahEntry → Bool
unfolding fired_step since
fires wfah node_key i entry =
    since (node_entered_at wfah) entry.applied_at
    && opt_eq (λ a b. a == b) (fired_step node_key entry.action) (some i)

-- the steps from the index `i` on that have fired; a `BTreeSet` gives them in this order, and once
pub fired_grants : Wfah → Text → ℕ → List EscalationStep → List CaGrantRule
unfolding fires
fired_grants wfah node_key i [] = []
fired_grants wfah node_key i (step ∷ steps) =
    let rest = fired_grants wfah node_key (1 + i) steps in
    if any (fires wfah node_key i) wfah then step.grant ∷ rest else rest

unfoldable pub open_grants : Wfd → Wfah → Text → List CaGrantRule
unfolding fired_grants
open_grants wfd wfah node_key = elim (lookup node_key wfd.nodes) [
  | none ↦ []
  | some node ↦ fired_grants wfah node_key 0 (NodeDef.escalation node)
]

-- `GlobalAction`'s derived equality: no two actions have one text
abbrev pub same_action : GlobalAction → GlobalAction → Bool
same_action a b = text_eq (global_action_text a) (global_action_text b)

abbrev pub match_env : Wfes → MatchEnv
match_env wfes = record { context = wfes.dynctx; ledger = wfes.wfah; orgtnt_id = wfes.orgtnt_id }

module _ (host : Host) (org : OrgPort) (now : Instant) where
  -- the guard of a rule on the staged context
  pub guard_holds : Option Text → Actor → Wfes → ValidRules → Fallible Bool
  guard_holds none actor wfes rules = ok true
  guard_holds (some expr) actor wfes rules =
      evaluate_bool host expr
        (with_wfe_id
          (with_actor
            (with_node (with_wfah host (new wfes.dynctx) wfes.wfah rules) wfes.current_node) actor)
          wfes.wfe_id)
        now

  -- one rule: the actor first, the guard only if the actor fits
  pub rule_admits : CaGrantRule → Actor → Wfes → ValidRules → Fallible Bool
  unfolding guard_holds
  rule_admits rule actor wfes rules =
      authorize_or_delegated_anchored host org rule.c_a actor wfes.origin_orgu_id (match_env wfes)
        now
      >>= λ mine. if not mine then ok false else guard_holds rule.when actor wfes rules

  unfoldable pub matches_grant_rules : List CaGrantRule → Actor → Wfes → ValidRules → Fallible Bool
  unfolding rule_admits
  matches_grant_rules [] actor wfes rules = ok false
  matches_grant_rules (rule ∷ more) actor wfes rules =
      let rest = matches_grant_rules more actor wfes rules in
      rule_admits rule actor wfes rules >>= λ fits. if fits then ok true else rest

  -- The union over the rules that the actor fits; a rule without actions is not asked. The set of
  -- the source is a list here, which may hold an action twice.
  pub wf_admin_global_actions :
      List WfAdminRule → Actor → Wfes → ValidRules → Fallible (List GlobalAction)
  unfolding matches_grant_rules
  wf_admin_global_actions [] actor wfes rules = ok []
  wf_admin_global_actions (rule ∷ more) actor wfes rules =
      let rest = wf_admin_global_actions more actor wfes rules in
      if is_empty rule.allowed_global_actions
      then rest
      else matches_grant_rules (rule.grant ∷ []) actor wfes rules >>= λ fits.
          rest >>= λ out. ok (if fits then rule.allowed_global_actions ++ out else out)

  unfoldable pub require_global_action :
      List WfAdminRule → Actor → GlobalAction → Wfes → ValidRules → Fallible Unit
  unfolding wf_admin_global_actions
  require_global_action admins actor action wfes rules =
      wf_admin_global_actions admins actor wfes rules >>= λ actions.
      if any (same_action action) actions then ok tt else err unauthorized

  -- the node's own pool, then the grants that are open on it
  pub authorize_node_decision : Wfd → Wfes → Text → Actor → Fallible AuthDecision
  unfolding open_grants matches_grant_rules
  authorize_node_decision wfd wfes node_key actor = elim (lookup node_key wfd.nodes) [
    | none ↦ err (invalid_wfd (codes "bilinmeyen node '" ++ (node_key ++ codes "'")))
    | some node ↦
        authorize_with_delegation_anchored host org (NodeDef.c_a node) actor wfes.origin_orgu_id
          (match_env wfes) now
        >>= λ own.
            if is_authorized own
            then ok own
            else if is_empty (open_grants wfd wfes.wfah node_key)
            then ok denied
            else matches_grant_rules (open_grants wfd wfes.wfah node_key) actor wfes
                (for_version wfd)
              >>= λ by_grant. ok (if by_grant then direct else denied)
  ]

  unfoldable pub authorize_node : Wfd → Wfes → Text → Actor → Fallible Bool
  unfolding authorize_node_decision
  authorize_node wfd wfes node_key actor =
      authorize_node_decision wfd wfes node_key actor >>= λ d. ok (is_authorized d)
