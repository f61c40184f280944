-- ===== src/Types/Wfes.antt =====
-- crates/wfe-core/src/types/wfe.rs (`WfeStatus`) and v22/ports.rs (`BranchState`, `Wfes`): the
-- state of a workflow instance.
use agnoflow_engine.Prelude.{ℕ, Bool, true, false, Option, List, Text}
use agnoflow_engine.Types.Json.{Json}
use agnoflow_engine.Types.Actor.{Uuid, Instant}
use agnoflow_engine.Types.Wfah.{Wfah}
use agnoflow_engine.Types.Wfd.{WftTarget, JoinRule}

pub data WfeStatus : Type 0 where
  active terminal error terminated : WfeStatus

pub data BranchStatus : Type 0 where
  active arrived cancelled : BranchStatus

abbrev pub is_active : WfeStatus → Bool
is_active WfeStatus.active = true
is_active _ = false

abbrev pub branch_is_active : BranchStatus → Bool
branch_is_active BranchStatus.active = true
branch_is_active _ = false

pub record BranchState : Type 0 where
  pub branch_node : Text
  pub entry_node : Text
  pub status : BranchStatus
  pub claimed_by : Option Uuid
  pub claimed_at : Option Instant
  pub entered_at : Instant

pub record Wfes : Type 0 where
  pub wfe_id : Uuid
  pub orgtnt_id : Uuid
  pub environment_id : Option Uuid
  pub wfd_id : Uuid
  pub wfd_version : ℕ
  pub dynctx : Json
  pub wfah : Wfah
  pub status : WfeStatus
  pub current_node : Option Text
  pub end_terminal : Option Text
  pub assigned_to : Option Uuid
  pub end_response : Option Json
  pub deadline : Option Instant
  pub claimed_at : Option Instant
  pub created_at : Instant
  pub branches : List BranchState
  pub join_target : Option WftTarget
  pub join_rule : JoinRule
  pub visited_nodes : List Text
  pub origin_orgu_id : Option Uuid
