-- ===== src/Sim.antt =====
-- crates/wfe/src/sim.rs: the state of a simulated instance, and what a commit makes of it. The notes of
-- the state, which no step reads, are left out; all readings of the clock within a step are one
-- argument.
pub mod Steps
pub mod Shape
pub mod Progress
pub mod Reach
pub mod Gates
pub mod Visited
pub mod Phases
use agnoflow_engine.Prelude.{
  ℤ, ℕ, ◌+◌, Bool, true, false, ◌&&◌, not, Option, none, some, List, [], ◌∷◌, ◌++◌, if◌then◌else◌,
  Text, codes, text_eq, any, filter, find, map, head?, last?, is_some, map_opt, and_then, or_opt,
  unwrap_or,
}
use Prim.Native.Nat.{max}
use agnoflow_engine.Types.Json.{Json}
use agnoflow_engine.Types.Actor.{Uuid, Instant}
use agnoflow_engine.Types.Wfah.{Wfah, WfahEntry, u32, extended}
use agnoflow_engine.Types.Wfd.{CallMode, mode_text, WftTarget, JoinRule}
use agnoflow_engine.Types.Wfes.{WfeStatus, BranchStatus, BranchState, branch_is_active, Wfes}
use agnoflow_engine.Types.Commit.{
  CallSite, site_kind, site_key, StagedCall, TransitionCommit, NewWfe,
}
use agnoflow_engine.Outcome.{
  CommitOutcome, Resolution, resolution, move_to, stay_at, terminal, failed, terminated, fork_to,
  branch_move_to, branch_arrived, join_complete, collapse_to,
}
use agnoflow_engine.Ledger.Payload.{join_row}
use agnoflow_engine.Pipeline.Rows.{next_seq}

pub record SimCall : Type 0 where
  pub call_key : Text
  pub mode : Text
  pub site_kind : Text
  pub site_key : Text
  pub input : Json
  pub awaited : Bool

pub record SimAttachment : Type 0 where
  pub group : Text
  pub item : Text
  pub filename : Option Text
  pub content_type : Option Text
  pub size_bytes : ℤ
  pub node : Option Text

pub record SimState : Type 0 where
  pub wfe_id : Uuid
  pub orgtnt_id : Uuid
  pub dynctx : Json
  pub wfah : Wfah
  pub current_node : Option Text
  pub status : WfeStatus
  pub end_response : Option Json
  pub end_terminal : Option Text
  pub visited_nodes : List Text
  pub branches : List BranchState
  pub join_target : Option WftTarget
  pub join_threshold : Option ℕ
  pub join_when : Option Text
  pub pending_calls : List SimCall
  pub attachments : List SimAttachment

abbrev is_wait : CallMode → Bool
is_wait CallMode.wait = true
is_wait CallMode.detached = false
is_wait CallMode.terminal = false

abbrev pub from_staged : StagedCall → SimCall
from_staged c = record {
  call_key = c.call_key;
  mode = mode_text c.mode;
  site_kind = agnoflow_engine.Types.Commit.site_kind c.site;
  site_key = agnoflow_engine.Types.Commit.site_key c.site;
  input = c.input;
  awaited = is_wait c.mode;
}

abbrev node_list : Option Text → List Text
node_list none = []
node_list (some n) = n ∷ []

unfoldable pub from_new_wfe : NewWfe → SimState
from_new_wfe new =
    let r = resolution new.outcome in
    record {
      wfe_id = new.wfe_id;
      orgtnt_id = new.orgtnt_id;
      dynctx = new.initial_dynctx;
      wfah = new.wfah_entries;
      current_node = r.node;
      status = r.status;
      end_response = r.end_response;
      end_terminal = new.end_terminal;
      visited_nodes = node_list r.node;
      branches = [];
      join_target = none;
      join_threshold = none;
      join_when = none;
      pending_calls = map from_staged new.staged_calls;
      attachments = [];
    }

-- The simulation writes no claim: whoever acts owns the instance, and each of its active branches.
abbrev pub owned_by : Uuid → BranchState → BranchState
owned_by user b = if branch_is_active b.status then record b { claimed_by = some user } else b

abbrev pub owned_branches : Option Uuid → List BranchState → List BranchState
owned_branches none bs = bs
owned_branches (some user) bs = map (owned_by user) bs

abbrev rule_of : Option ℕ → Option Text → JoinRule
rule_of (some k) when = JoinRule.quorum (max k 1)
rule_of none (some e) = JoinRule.expr e
rule_of none none = JoinRule.all

unfoldable pub to_wfes : SimState → Option Uuid → Instant → Wfes
to_wfes s assigned_to now = record {
  wfe_id = s.wfe_id;
  orgtnt_id = s.orgtnt_id;
  environment_id = none;
  wfd_id = 0;
  wfd_version = 0;
  dynctx = s.dynctx;
  wfah = s.wfah;
  status = s.status;
  current_node = s.current_node;
  end_terminal = s.end_terminal;
  assigned_to = assigned_to;
  end_response = s.end_response;
  deadline = none;
  claimed_at = none;
  created_at = unwrap_or (map_opt WfahEntry.applied_at (head? s.wfah)) now;
  branches = owned_branches assigned_to s.branches;
  join_target = s.join_target;
  join_rule = rule_of s.join_threshold s.join_when;
  visited_nodes = s.visited_nodes;
  origin_orgu_id = none;
}

-- `active_branch_mut`: the first active branch at the node is changed
pub change_branch : Text → (BranchState → BranchState) → List BranchState → List BranchState
change_branch node f [] = []
change_branch node f (b ∷ bs) =
    let rest = change_branch node f bs in
    if branch_is_active b.status && text_eq b.branch_node node then f b ∷ bs else b ∷ rest

abbrev threshold_of : JoinRule → Option ℕ
threshold_of (JoinRule.quorum k) = some k
threshold_of _ = none

abbrev when_of : JoinRule → Option Text
when_of (JoinRule.expr e) = some e
when_of _ = none

abbrev pub forked_branch : Instant → Text → BranchState
forked_branch now n = record {
  branch_node = n;
  entry_node = n;
  status = BranchStatus.active;
  claimed_by = none;
  claimed_at = none;
  entered_at = now;
}

abbrev pub moved_branch : Text → Instant → BranchState → BranchState
moved_branch node now b = record b {
  branch_node = node;
  claimed_by = none;
  claimed_at = none;
  entered_at = now;
}

abbrev pub arrived_branch : BranchState → BranchState
arrived_branch b = record b { status = BranchStatus.arrived; claimed_by = none; claimed_at = none }

-- the parallel mode ends
abbrev pub unforked : SimState → SimState
unforked s = record s { branches = []; join_target = none; join_threshold = none; join_when = none }

pub apply_branch_outcome : SimState → CommitOutcome → Instant → SimState
unfolding change_branch
apply_branch_outcome s (fork_to bs join rule) now = record s {
  branches = map (forked_branch now) bs;
  join_target = some join;
  join_threshold = threshold_of rule;
  join_when = when_of rule;
}
apply_branch_outcome s (branch_move_to from node) now = record s {
  branches = change_branch from (moved_branch node now) s.branches;
}
apply_branch_outcome s (branch_arrived from arrived) now = record s {
  branches = change_branch from arrived_branch s.branches;
}
apply_branch_outcome s (join_complete from quorum arrived next) now =
    unforked (record s { wfah = s.wfah ++ join_row (next_seq s.wfah) now ∷ [] })
apply_branch_outcome s (terminal r) now = unforked s
apply_branch_outcome s (failed r) now = unforked s
apply_branch_outcome s (terminated r) now = unforked s
apply_branch_outcome s (collapse_to from node cause) now = unforked s
apply_branch_outcome s (move_to node) now = s
apply_branch_outcome s (stay_at node) now = s

-- the nodes that have been visited, without repetition
pub visit : List Text → List Text → List Text
visit [] seen = seen
visit (n ∷ ns) seen = visit ns (if any (text_eq n) seen then seen else seen ++ n ∷ [])

abbrev pub reached : Option Text → List BranchState → List Text
reached current bs = node_list current ++ map BranchState.branch_node bs

unfoldable pub apply_commit : SimState → TransitionCommit → Instant → SimState
unfolding apply_branch_outcome visit
apply_commit s commit now =
    let staged : SimState = record s {
      dynctx = commit.new_dynctx;
      wfah = extended s.wfah commit.wfah_entries;
    } in
    let b = apply_branch_outcome staged commit.outcome now in
    let r = resolution commit.outcome in
    record b {
      status = r.status;
      current_node = r.node;
      visited_nodes = visit (reached r.node b.branches) b.visited_nodes;
      end_response = or_opt r.end_response s.end_response;
      end_terminal = or_opt commit.end_terminal s.end_terminal;
      pending_calls = b.pending_calls ++ map from_staged commit.staged_calls;
    }

abbrev awaits : Text → SimCall → Bool
awaits node c = c.awaited && (text_eq c.site_kind (codes "node") && text_eq c.site_key node)

pub awaited_call : SimState → Option SimCall
awaited_call s = and_then s.current_node λ node. find (awaits node) s.pending_calls

pub clear_awaited_call : SimState → Text → SimState
clear_awaited_call s site_key = record s {
  pending_calls = filter (λ c. not (awaits site_key c)) s.pending_calls;
}

unfoldable pub active_nodes : SimState → List Text
active_nodes s = elim s.current_node [
  | some n ↦ n ∷ []
  | none ↦
      map BranchState.branch_node (filter (λ b. branch_is_active (BranchState.status b)) s.branches)
]

unfoldable pub has_attachment : SimState → Text → Text → Bool
has_attachment s group item =
    any (λ a. text_eq (SimAttachment.group a) group && text_eq (SimAttachment.item a) item)
      s.attachments
