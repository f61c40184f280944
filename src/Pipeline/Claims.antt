-- ===== src/Pipeline/Claims.antt =====
-- crates/wfe-core/src/v22/pipeline.rs: who may claim an instance or a branch (`Engine::can_claim`,
-- `claim_decision`).
pub mod Pool
use agnoflow_engine.Prelude.{
  Bool, true, false, Option, none, some, if◌then◌else◌, is_some, Text, lookup, ok, ◌>>=◌, inl, inr,
  ◌⊎◌,
}
use agnoflow_engine.Types.Errors.{Fallible}
use agnoflow_engine.Types.Actor.{Instant, Actor}
use agnoflow_engine.Types.Wfd.{NodeDef, Wfd}
use agnoflow_engine.Types.Wfes.{BranchState, Wfes}
use agnoflow_engine.Types.Host.{Host}
use agnoflow_engine.Access.Ports.{OrgPort}
use agnoflow_engine.Access.Matcher.{AuthDecision, denied}
use agnoflow_engine.Access.Grants.{authorize_node, authorize_node_decision}
use agnoflow_engine.Pipeline.{is_terminal_class}
use agnoflow_engine.Pipeline.Sla.{deadline_due}
use agnoflow_engine.Pipeline.Rows.{active_branch}

pub data ClaimCheck : Type 0 where
  claimable ended expired already_claimed not_eligible call_in_progress : ClaimCheck

-- the node that is asked for, if nobody has claimed it
abbrev free_branch : Option BranchState → Text → ClaimCheck ⊎ Text
free_branch none node = inl not_eligible
free_branch (some b) node = if is_some b.claimed_by then inl already_claimed else inr node

abbrev free_node : Wfes → ClaimCheck ⊎ Text
free_node wfes =
    if is_some wfes.assigned_to
    then inl already_claimed
    else elim wfes.current_node [ none ↦ inl not_eligible | some node ↦ inr node ]

abbrev pub claimed_at_node : Wfes → Option Text → ClaimCheck ⊎ Text
claimed_at_node wfes none = free_node wfes
claimed_at_node wfes (some b) = free_branch (active_branch wfes b) b

module _ (host : Host) (org : OrgPort) (now : Instant) (wfd : Wfd) (wfes : Wfes)
    (actor : Actor) where
  abbrev pub in_pool : Text → Fallible ClaimCheck
  in_pool node_key = authorize_node host org now wfd wfes node_key actor >>= λ may.
      ok (if may then claimable else not_eligible)

  pub claim_node : Text → Fallible ClaimCheck
  claim_node node_key = elim (lookup node_key wfd.nodes) [
    | none ↦ ok not_eligible
    | some node ↦ if is_some (NodeDef.call node) then ok call_in_progress else in_pool node_key
  ]

  unfoldable pub can_claim : Option Text → Fallible ClaimCheck
  unfolding claim_node
  can_claim branch =
      if is_terminal_class wfes.status
      then ok ended
      else if deadline_due wfes now
      then ok expired
      else elim (claimed_at_node wfes branch) [
        | inl check ↦ ok check
        | inr node_key ↦ claim_node node_key
      ]

  abbrev pub asked_node : Option Text → Option Text
  asked_node none = wfes.current_node
  asked_node (some b) = some b

  abbrev pub decision_at : Text → NodeDef → Fallible AuthDecision
  decision_at node_key node =
      if is_some node.call
      then ok denied
      else authorize_node_decision host org now wfd wfes node_key actor

  pub claim_decision : Option Text → Fallible AuthDecision
  claim_decision branch = elim (asked_node branch) [
    | none ↦ ok denied
    | some node_key ↦ elim (lookup node_key wfd.nodes) [
      | none ↦ ok denied
      | some node ↦ decision_at node_key node
    ]
  ]
