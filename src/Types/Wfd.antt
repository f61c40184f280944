-- ===== src/Types/Wfd.antt =====
-- crates/wfe-core/src/types/wfd_v22.rs: the workflow definition. Labels and descriptions, which no
-- modelled code reads, are left out, and so are the attachments, an autoexec's kind, and the waiting
-- times between the attempts of a trigger. A `BTreeMap` is a `Dict`, a `BTreeSet` a list.
use agnoflow_engine.Prelude.{ℕ, Bool, true, false, and_then, codes, Option, List, Text, Dict}
use agnoflow_engine.Types.Attachments.{AttachmentGroup, AttachmentRef}
use agnoflow_engine.Types.Json.{Json}

-- a constant identity, or a reference into the context
pub data CuItem : Type 0 where
  literal : Text → CuItem
  ref : Text → CuItem

pub data AnchorFrom : Type 0 where
  ctx : Text → AnchorFrom
  -- the action, the field, and the occurrence
  wfah : Text → Text → Option Text → AnchorFrom

pub data COrgu : Type 0 where
  selector : Text → COrgu
  -- `from` and `traverse`
  anchor : AnchorFrom → Text → COrgu

pub record CandidateActor : Type 0 where
  pub c_orgu : Option COrgu
  pub c_r : Option (List Text)
  pub c_u : Option (List CuItem)

pub record CaGrantRule : Type 0 where
  pub c_a : CandidateActor
  pub when : Option Text

pub data GlobalAction : Type 0 where
  assign_from_pool reclaim_to_pool reassign send_back send_to_start cancel : GlobalAction
  fire_escalation skip_escalation : GlobalAction

unfoldable pub global_action_text : GlobalAction → Text
global_action_text assign_from_pool = codes "assign_from_pool"
global_action_text reclaim_to_pool = codes "reclaim_to_pool"
global_action_text reassign = codes "reassign"
global_action_text send_back = codes "send_back"
global_action_text send_to_start = codes "send_to_start"
global_action_text cancel = codes "cancel"
global_action_text fire_escalation = codes "fire_escalation"
global_action_text skip_escalation = codes "skip_escalation"

pub record WfAdminRule : Type 0 where
  pub grant : CaGrantRule
  pub allowed_global_actions : List GlobalAction

pub record SetWhenEntry : Type 0 where
  pub when : Text
  pub set : Dict Json

pub record WfesEffects : Type 0 where
  pub set : Dict Json
  pub set_when : List SetWhenEntry

pub data WftTarget : Type 0 where
  node terminal : Text → WftTarget

pub record WftCondition : Type 0 where
  pub when : Text
  pub node : Option Text
  pub terminal : Option Text

pub data JoinMode : Type 0 where
  and or expr : JoinMode

pub data JoinRule : Type 0 where
  all : JoinRule
  quorum : ℕ → JoinRule
  expr : Text → JoinRule

pub record ParallelSpec : Type 0 where
  pub branches : List Text
  pub join : WftTarget
  pub join_mode : JoinMode
  pub join_threshold : Option ℕ
  pub join_when : Option Text

-- A send-back target is its node.
pub data Wft : Type 0 where
  node terminal : Text → Wft
  send_back : List Text → Wft
  conditional : List WftCondition → Option WftTarget → Wft
  parallel : ParallelSpec → Wft
  collapse : WftTarget → Wft

pub record EscalationStep : Type 0 where
  pub after : Text
  pub wfes_effects : Option WfesEffects
  pub grant : CaGrantRule

pub data CallMode : Type 0 where
  wait detached terminal : CallMode

-- `CallMode::is_node_site`
abbrev pub is_node_site : CallMode → Bool
is_node_site CallMode.wait = true
is_node_site CallMode.detached = true
is_node_site CallMode.terminal = false

abbrev pub mode_text : CallMode → Text
mode_text CallMode.wait = codes "wait"
mode_text CallMode.detached = codes "detached"
mode_text CallMode.terminal = codes "terminal"

pub data StartAs : Type 0 where
  actor system : StartAs

pub record CallRef : Type 0 where
  pub use_ : Text
  pub mode : CallMode
  pub timeout : Option Text
  pub wfes_effects : Option WfesEffects
  pub wft : Option Wft
  pub start_as : Option StartAs
  pub max_next : Option ℕ

pub record CallDef : Type 0 where
  pub wfd_id : Text
  pub version : Option Text
  pub start : Option Text
  pub input : Dict Json

pub record AutoexecDef : Type 0 where
  pub timeout_seconds : ℕ
  pub config : Json
  pub wfes_effects : Option WfesEffects

pub record Retrier : Type 0 where
  pub error_equals : List Text
  pub max_attempts : ℕ

pub record CatchDef : Type 0 where
  pub error_equals : List Text
  pub wfes_effects : WfesEffects

pub record TriggerInvocation : Type 0 where
  pub use_ : Text
  pub when : Option Text
  pub required : Bool
  pub retry : List Retrier
  pub catch : Option CatchDef

pub record InputDef : Type 0 where
  pub required : List Text
  pub optional : List Text

pub record NodeDef : Type 0 where
  pub c_a : CandidateActor
  pub reassign : Option CandidateActor
  pub escalation : List EscalationStep
  pub claim_timeout : Option Text
  pub call : Option CallRef
  pub listable : List CaGrantRule
  pub attachments : List AttachmentRef

-- the route of a node's call, if it has one of its own
abbrev pub call_wft : NodeDef → Option Wft
call_wft n = and_then n.call CallRef.wft

pub record ActionDef : Type 0 where
  pub input : InputDef
  pub from : Text
  pub when : Option Text
  pub extra_c_a : Option CandidateActor
  pub wfes_effects : Option WfesEffects
  pub trigger : List TriggerInvocation
  pub wft : Wft

pub record StartRule : Type 0 where
  pub id : Text
  pub action : Text

pub record Terminal : Type 0 where
  pub id : Text
  pub wfes_effects : Option WfesEffects
  pub wfe_end_response : Dict Json
  pub listable : List CaGrantRule
  pub call : Option CallRef

pub record Wfd : Type 0 where
  pub wfd_version : Text
  pub id : Text
  pub timeout : Option Text
  pub context : Json
  pub nodes : Dict NodeDef
  pub start : List StartRule
  pub actions : Dict ActionDef
  pub autoexec : Dict AutoexecDef
  pub calls : Dict CallDef
  pub terminals : List Terminal
  pub attachments : Dict AttachmentGroup
  pub listable : List CaGrantRule
  pub wf_admin : List WfAdminRule
