-- ===== src/Outcome.antt =====
-- crates/wfe-core/src/v22/ports.rs: `CommitOutcome`, what a transition makes of the instance, and
-- the questions that the store asks of it; `Wfes::rev`.
pub mod Views
use agnoflow_engine.Prelude.{
  ℕ, Bool, true, false, Option, none, some, List, [], ◌∷◌, last?, map_opt, unwrap_or, Text, codes,
}
use agnoflow_engine.Types.Json.{Json}
use agnoflow_engine.Types.Wfah.{WfahEntry}
use agnoflow_engine.Types.Wfd.{WftTarget, JoinRule}
use agnoflow_engine.Types.Wfes.{WfeStatus, Wfes}

pub data CollapseCause : Type 0 where
  collapse sent_back : CollapseCause

pub data CommitOutcome : Type 0 where
  move_to stay_at : Text → CommitOutcome
  -- the end response
  terminal failed terminated : Json → CommitOutcome
  fork_to : List Text → WftTarget → JoinRule → CommitOutcome
  -- from and to
  branch_move_to : Text → Text → CommitOutcome
  branch_arrived : Text → List Text → CommitOutcome
  -- from, `quorum_collapse`, the arrived branches, and the outcome at the join
  join_complete : Text → Bool → List Text → CommitOutcome → CommitOutcome
  collapse_to : Option Text → Text → CollapseCause → CommitOutcome

-- the triple of `resolution`
pub record Resolution : Type 0 where
  pub status : WfeStatus
  pub node : Option Text
  pub end_response : Option Json

abbrev resolved : WfeStatus → Option Text → Option Json → Resolution
resolved s n r = record { status = s; node = n; end_response = r }

unfoldable pub resolution : CommitOutcome → Resolution
resolution (move_to node) = resolved WfeStatus.active (some node) none
resolution (stay_at node) = resolved WfeStatus.active (some node) none
resolution (terminal r) = resolved WfeStatus.terminal none (some r)
resolution (failed r) = resolved WfeStatus.error none (some r)
resolution (terminated r) = resolved WfeStatus.terminated none (some r)
resolution (fork_to bs join rule) = resolved WfeStatus.active none none
resolution (branch_move_to from node) = resolved WfeStatus.active none none
resolution (branch_arrived from arrived) = resolved WfeStatus.active none none
resolution (join_complete from quorum arrived next) = resolution next
resolution (collapse_to from node cause) = resolved WfeStatus.active (some node) none

unfoldable pub to_node : CommitOutcome → Option Text
to_node (move_to node) = some node
to_node (branch_move_to from node) = some node
to_node (collapse_to from node cause) = some node
to_node (join_complete from quorum arrived next) = to_node next
to_node (stay_at node) = none
to_node (terminal r) = none
to_node (failed r) = none
to_node (terminated r) = none
to_node (fork_to bs join rule) = none
to_node (branch_arrived from arrived) = none

unfoldable pub from_node : CommitOutcome → Option Text
from_node (branch_move_to from node) = some from
from_node (branch_arrived from arrived) = some from
from_node (join_complete from quorum arrived next) = some from
from_node (collapse_to from node cause) = from
from_node (stay_at node) = none
from_node (move_to node) = none
from_node (fork_to bs join rule) = none
from_node (terminal r) = none
from_node (failed r) = none
from_node (terminated r) = none

unfoldable pub branch_nodes : CommitOutcome → List Text
branch_nodes (fork_to bs join rule) = bs
branch_nodes (branch_move_to from node) = node ∷ []
branch_nodes (stay_at node) = node ∷ []
branch_nodes (branch_arrived from arrived) = []
branch_nodes (join_complete from quorum arrived next) = []
branch_nodes (collapse_to from node cause) = []
branch_nodes (move_to node) = []
branch_nodes (terminal r) = []
branch_nodes (failed r) = []
branch_nodes (terminated r) = []

pub settles_call : CommitOutcome → Option (Text × Json)
settles_call (terminal r) = some (codes "completed", r)
settles_call (failed r) = some (codes "failed", r)
settles_call (terminated r) = some (codes "terminated", r)
settles_call (join_complete from quorum arrived next) = settles_call next
settles_call (stay_at node) = none
settles_call (move_to node) = none
settles_call (fork_to bs join rule) = none
settles_call (branch_move_to from node) = none
settles_call (branch_arrived from arrived) = none
settles_call (collapse_to from node cause) = none

unfoldable pub clears_claim : CommitOutcome → Bool
clears_claim (move_to node) = true
clears_claim (terminal r) = true
clears_claim (failed r) = true
clears_claim (terminated r) = true
clears_claim (fork_to bs join rule) = true
clears_claim (collapse_to from node cause) = true
clears_claim (stay_at node) = false
clears_claim (branch_move_to from node) = false
clears_claim (branch_arrived from arrived) = false
clears_claim (join_complete from quorum arrived next) = clears_claim next

-- `Wfes::rev`
unfoldable pub rev : Wfes → ℕ
rev wfes = unwrap_or (map_opt WfahEntry.seq (last? wfes.wfah)) 0
