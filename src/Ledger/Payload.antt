-- ===== src/Ledger/Payload.antt =====
-- crates/wfe-core/src/v22/wfah_payload.rs: the payload of a marker row, as a value and as the JSON
-- that the row keeps. `N` is a node's key: a text in the ledger.
pub mod RoundTrip
use agnoflow_engine.Prelude.{
  ℕ, Bool, true, false, Option, none, some, List, [], ◌∷◌, ◌++◌, if◌then◌else◌, Text, codes, map,
  filter_map, and_then, map_opt, unwrap_or,
}
use agnoflow_engine.Types.Json.{
  Json, null, bool, number, pos_int, string, Fields, get, as_str, as_bool, as_array, obj, arr,
  opt_string, opt_json, opt_number,
}
use agnoflow_engine.Types.Actor.{Instant}
use agnoflow_engine.Types.Wfah.{WfahEntry, u32}
use agnoflow_engine.Ledger.Kind.{WfahKind}

pub record GrantPayload : Type 0 where
  pub c_a : Json
  pub when : Option Text

pub record CollapsePayload (N : Type 0) : Type 0 where
  pub kind : Text
  pub reason : Text
  pub target : Option N
  pub cancelled : List N
  pub superseded : List N
  pub trigger_kind : Text
  pub trigger_branch : Option N
  pub trigger_at_node : Option N
  pub trigger_action : Option Text
  pub trigger_actor : Json
  pub trigger_claimed_by : Option Text
  pub trigger_claimed_at : Option Json

pub record BranchDropPayload (N : Type 0) : Type 0 where
  pub branch_entry : N
  pub at_node : N
  pub reason : Text
  pub claimed_by : Option Text
  pub claimed_at : Option Json
  pub approved_by : Option Json
  pub approved_at : Option Json
  pub trigger_kind : Text
  pub trigger_branch : Option N
  pub trigger_action : Option Text
  pub trigger_actor : Json

pub data WfahPayload (N : Type 0) : Type 0 where
  deadline : Option Json → WfahPayload N
  escalation : Text → GrantPayload → WfahPayload N
  escalation_skipped : Bool → Text → WfahPayload N
  claim_taken claim_released : Json → WfahPayload N
  -- result, error, message, handled, required
  trigger : Option Json → Option Text → Option Text → Option Bool → Option Bool → WfahPayload N
  -- status, callee_wfe_id
  call_return : Option Text → Option Text → WfahPayload N
  -- callee_wfe_id, omitted, reason
  call_truncated : Option Text → ℕ → Text → WfahPayload N
  -- branches, join, join_mode, join_threshold, join_when
  fork : List N → Json → Text → Option ℕ → Option Text → WfahPayload N
  -- branch_entry, at_node, approved_by, approved_at, claimed_at, claimed_by
  branch_arrived : Option N → N → Json → Option Json → Option Json → Option Text → WfahPayload N
  join : WfahPayload N
  collapse : CollapsePayload N → WfahPayload N
  branch_cancelled branch_superseded : BranchDropPayload N → WfahPayload N
  unknown : Json → WfahPayload N

-- `map_nodes`: another view of the nodes' keys, the rest as it is
module _ {N M : Type 0} (resolve : N → M) where
  abbrev pub map_collapse : CollapsePayload N → CollapsePayload M
  map_collapse c = record {
    kind = c.kind;
    reason = c.reason;
    target = map_opt resolve c.target;
    cancelled = map resolve c.cancelled;
    superseded = map resolve c.superseded;
    trigger_kind = c.trigger_kind;
    trigger_branch = map_opt resolve c.trigger_branch;
    trigger_at_node = map_opt resolve c.trigger_at_node;
    trigger_action = c.trigger_action;
    trigger_actor = c.trigger_actor;
    trigger_claimed_by = c.trigger_claimed_by;
    trigger_claimed_at = c.trigger_claimed_at;
  }

  abbrev pub map_drop : BranchDropPayload N → BranchDropPayload M
  map_drop d = record {
    branch_entry = resolve d.branch_entry;
    at_node = resolve d.at_node;
    reason = d.reason;
    claimed_by = d.claimed_by;
    claimed_at = d.claimed_at;
    approved_by = d.approved_by;
    approved_at = d.approved_at;
    trigger_kind = d.trigger_kind;
    trigger_branch = map_opt resolve d.trigger_branch;
    trigger_action = d.trigger_action;
    trigger_actor = d.trigger_actor;
  }

  abbrev pub map_nodes : WfahPayload N → WfahPayload M
  map_nodes (deadline d) = deadline d
  map_nodes (escalation after grant) = escalation after grant
  map_nodes (escalation_skipped skipped after) = escalation_skipped skipped after
  map_nodes (claim_taken v) = claim_taken v
  map_nodes (claim_released v) = claim_released v
  map_nodes (trigger result error message handled required) =
      trigger result error message handled required
  map_nodes (call_return status callee) = call_return status callee
  map_nodes (call_truncated callee omitted reason) = call_truncated callee omitted reason
  map_nodes (fork branches target mode threshold when) =
      fork (map resolve branches) target mode threshold when
  map_nodes (branch_arrived entry at_node by at claimed_at claimed_by) =
      branch_arrived (map_opt resolve entry) (resolve at_node) by at claimed_at claimed_by
  map_nodes join = join
  map_nodes (collapse c) = collapse (map_collapse c)
  map_nodes (branch_cancelled d) = branch_cancelled (map_drop d)
  map_nodes (branch_superseded d) = branch_superseded (map_drop d)
  map_nodes (unknown v) = unknown v

-- `skip_serializing_if = "Option::is_none"`
abbrev pub if_some : Text → Option Json → List (Text × Json)
if_some key none = []
if_some key (some v) = (key, v) ∷ []

abbrev nodes_json : List Text → Json
nodes_json nodes = arr (map string nodes)

pub grant_json : GrantPayload → Json
grant_json g = obj ((codes "c_a", g.c_a) ∷ if_some (codes "when") (map_opt string g.when))

pub collapse_json : CollapsePayload Text → Json
collapse_json c = obj (
    (codes "kind", string c.kind)
    ∷ (codes "reason", string c.reason)
    ∷ (codes "target", opt_string c.target)
    ∷ (codes "cancelled", nodes_json c.cancelled)
    ∷ (codes "superseded", nodes_json c.superseded)
    ∷ (codes "trigger_kind", string c.trigger_kind)
    ∷ (codes "trigger_branch", opt_string c.trigger_branch)
    ∷ (codes "trigger_at_node", opt_string c.trigger_at_node)
    ∷ (codes "trigger_action", opt_string c.trigger_action)
    ∷ (codes "trigger_actor", c.trigger_actor)
    ∷ (codes "trigger_claimed_by", opt_string c.trigger_claimed_by)
    ∷ (codes "trigger_claimed_at", opt_json c.trigger_claimed_at)
    ∷ [])

pub drop_json : BranchDropPayload Text → Json
drop_json d = obj (
    (codes "branch_entry", string d.branch_entry)
    ∷ (codes "at_node", string d.at_node)
    ∷ (codes "reason", string d.reason)
    ∷ (if_some (codes "claimed_by") (map_opt string d.claimed_by)
        ++ (if_some (codes "claimed_at") d.claimed_at
            ++ (if_some (codes "approved_by") d.approved_by
                ++ (if_some (codes "approved_at") d.approved_at
                    ++ (codes "trigger_kind", string d.trigger_kind)
                      ∷ (codes "trigger_branch", opt_string d.trigger_branch)
                      ∷ (codes "trigger_action", opt_string d.trigger_action)
                      ∷ (codes "trigger_actor", d.trigger_actor)
                      ∷ [])))))

pub to_value : WfahPayload Text → Json
unfolding grant_json collapse_json drop_json
to_value (deadline d) = obj ((codes "deadline", opt_json d) ∷ [])
to_value (escalation after grant) =
    obj ((codes "after", string after) ∷ (codes "grant", grant_json grant) ∷ [])
to_value (escalation_skipped skipped after) =
    obj ((codes "skipped", bool skipped) ∷ (codes "after", string after) ∷ [])
to_value (claim_taken v) = v
to_value (claim_released v) = v
to_value (trigger result error message handled required) = obj (
    if_some (codes "result") result
    ++ (if_some (codes "error") (map_opt string error)
        ++ (if_some (codes "message") (map_opt string message)
            ++ (if_some (codes "handled") (map_opt bool handled)
                ++ if_some (codes "required") (map_opt bool required)))))
to_value (call_return status callee) =
    obj ((codes "status", opt_string status) ∷ (codes "callee_wfe_id", opt_string callee) ∷ [])
to_value (call_truncated callee omitted reason) = obj (
    (codes "callee_wfe_id", opt_string callee)
    ∷ (codes "omitted", number (pos_int omitted))
    ∷ (codes "reason", string reason)
    ∷ [])
to_value (fork branches target mode threshold when) = obj (
    (codes "branches", nodes_json branches)
    ∷ (codes "join", target)
    ∷ (codes "join_mode", string mode)
    ∷ (codes "join_threshold", opt_number threshold)
    ∷ (codes "join_when", opt_string when)
    ∷ [])
to_value (branch_arrived entry at_node approved_by approved_at claimed_at claimed_by) = obj (
    (codes "branch_entry", opt_string entry)
    ∷ (codes "at_node", string at_node)
    ∷ (codes "approved_by", approved_by)
    ∷ (codes "approved_at", opt_json approved_at)
    ∷ (codes "claimed_at", opt_json claimed_at)
    ∷ (codes "claimed_by", opt_string claimed_by)
    ∷ [])
to_value join = null
to_value (collapse c) = collapse_json c
to_value (branch_cancelled d) = drop_json d
to_value (branch_superseded d) = drop_json d
to_value (unknown v) = v

-- the closures of `from_row`: a text, an unsigned number, a Boolean, a list of texts
abbrev pub as_u64 : Json → Option ℕ
as_u64 (number (pos_int n)) = some n
as_u64 _ = none

abbrev pub text_at : Text → Json → Option Text
text_at k v = and_then (get k v) as_str

abbrev pub bool_at : Text → Json → Option Bool
bool_at k v = and_then (get k v) as_bool

abbrev pub nodes_at : Text → Json → List Text
nodes_at k v = unwrap_or (map_opt (filter_map as_str) (and_then (get k v) as_array)) []

abbrev pub not_null : Json → Option Json
not_null null = none
not_null v = some v

abbrev value_at : Text → Json → Json
value_at k v = unwrap_or (get k v) null

pub read_grant : Json → GrantPayload
read_grant g = record { c_a = value_at (codes "c_a") g; when = text_at (codes "when") g }

abbrev all_texts : Option Text → Option Text → Option Text → Option (Text × Text × Text)
all_texts (some a) (some b) (some c) = some (a, b, c)
all_texts _ _ _ = none

pub read_drop : Json → Text × Text × Text → BranchDropPayload Text
read_drop v (entry, at_node, reason) = record {
  branch_entry = entry;
  at_node = at_node;
  reason = reason;
  claimed_by = text_at (codes "claimed_by") v;
  claimed_at = and_then (get (codes "claimed_at") v) not_null;
  approved_by = and_then (get (codes "approved_by") v) not_null;
  approved_at = and_then (get (codes "approved_at") v) not_null;
  trigger_kind = unwrap_or (text_at (codes "trigger_kind") v) [];
  trigger_branch = text_at (codes "trigger_branch") v;
  trigger_action = text_at (codes "trigger_action") v;
  trigger_actor = value_at (codes "trigger_actor") v;
}

abbrev drop_parts : Json → Option (Text × Text × Text)
drop_parts v =
    all_texts (text_at (codes "branch_entry") v) (text_at (codes "at_node") v)
      (text_at (codes "reason") v)

pub read_collapse : Json → Text → Text → CollapsePayload Text
read_collapse v kind reason = record {
  kind = kind;
  reason = reason;
  target = text_at (codes "target") v;
  cancelled = nodes_at (codes "cancelled") v;
  superseded = nodes_at (codes "superseded") v;
  trigger_kind = unwrap_or (text_at (codes "trigger_kind") v) [];
  trigger_branch = text_at (codes "trigger_branch") v;
  trigger_at_node = text_at (codes "trigger_at_node") v;
  trigger_action = text_at (codes "trigger_action") v;
  trigger_actor = value_at (codes "trigger_actor") v;
  trigger_claimed_by = text_at (codes "trigger_claimed_by") v;
  trigger_claimed_at = get (codes "trigger_claimed_at") v;
}

-- a row with an input
pub from_input : WfahKind → Json → WfahPayload Text
unfolding read_grant read_drop read_collapse
from_input WfahKind.deadline v = deadline (get (codes "deadline") v)
from_input WfahKind.escalation v = elim (text_at (codes "after") v) [
  | none ↦ unknown v
  | some after ↦ elim (get (codes "grant") v) [
    | none ↦ unknown v
    | some g ↦ escalation after (read_grant g)
  ]
]
from_input WfahKind.escalation_skipped v = elim (text_at (codes "after") v) [
  | none ↦ unknown v
  | some after ↦ escalation_skipped (unwrap_or (bool_at (codes "skipped") v) true) after
]
from_input WfahKind.claim_taken v = claim_taken v
from_input WfahKind.claim_released v = claim_released v
from_input WfahKind.trigger v =
    trigger (get (codes "result") v) (text_at (codes "error") v) (text_at (codes "message") v)
      (bool_at (codes "handled") v) (bool_at (codes "required") v)
from_input WfahKind.call_return v =
    call_return (text_at (codes "status") v) (text_at (codes "callee_wfe_id") v)
from_input WfahKind.call_truncated v =
    call_truncated (text_at (codes "callee_wfe_id") v)
      (unwrap_or (and_then (get (codes "omitted") v) as_u64) 0)
      (unwrap_or (text_at (codes "reason") v) [])
from_input WfahKind.fork v =
    fork (nodes_at (codes "branches") v) (value_at (codes "join") v)
      (unwrap_or (text_at (codes "join_mode") v) [])
      (map_opt u32 (and_then (get (codes "join_threshold") v) as_u64))
      (text_at (codes "join_when") v)
from_input WfahKind.branch_arrived v = elim (text_at (codes "at_node") v) [
  | none ↦ unknown v
  | some at_node ↦
      branch_arrived (text_at (codes "branch_entry") v) at_node (value_at (codes "approved_by") v)
        (get (codes "approved_at") v) (get (codes "claimed_at") v) (text_at (codes "claimed_by") v)
]
from_input WfahKind.join v = join
from_input WfahKind.branch_cancelled v = elim (drop_parts v) [
  | none ↦ unknown v
  | some p ↦ branch_cancelled (read_drop v p)
]
from_input WfahKind.branch_superseded v = elim (drop_parts v) [
  | none ↦ unknown v
  | some p ↦ branch_superseded (read_drop v p)
]
from_input WfahKind.collapse v = elim (text_at (codes "kind") v) [
  | none ↦ unknown v
  | some k ↦ elim (text_at (codes "reason") v) [
    | none ↦ unknown v
    | some reason ↦ collapse (read_collapse v k reason)
  ]
]
from_input WfahKind.action v = unknown v

abbrev without_input : WfahKind → WfahPayload Text
without_input WfahKind.join = join
without_input _ = unknown null

pub from_row : WfahKind → Option Json → WfahPayload Text
unfolding from_input
from_row kind none = without_input kind
from_row kind (some v) = from_input kind v

-- the row of the system that no transition stages; the store writes it as a join fills
unfoldable pub join_row : ℕ → Instant → WfahEntry
join_row seq applied_at = record {
  seq = seq;
  action = codes "_join";
  actor = record { orgu_id = 0; user_id = 0; role = codes "system" };
  input = none;
  applied_at = applied_at;
  from_node = none;
  to_node = none;
  branch_entry = none;
  branch_round = none;
}
