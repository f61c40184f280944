-- ===== src/Pipeline.antt =====
-- crates/wfe-core/src/v22/pipeline.rs: the parts of the transition engine that ask neither the store
-- nor an executor. `end_terminal_of` and the class of ended instances stand here.
pub mod Raised
pub mod Routing
pub mod Rows
pub mod Sla
pub mod Graph
pub mod Join
pub mod Route
pub mod Input
pub mod Triggers
pub mod Candidates
pub mod Calls
pub mod Claims
pub mod Returns
pub mod Seat
pub mod Apply
pub mod Start
use agnoflow_engine.Prelude.{Bool, true, false}
use agnoflow_engine.Types.Wfes.{WfeStatus}

abbrev pub is_terminal_class : WfeStatus → Bool
is_terminal_class WfeStatus.terminal = true
is_terminal_class WfeStatus.terminated = true
is_terminal_class _ = false
