-- ===== src/Ledger/Payload/RoundTrip.antt =====
-- crates/wfe-core/src/v22/wfah_payload.rs: what is written is read back.
use agnoflow_engine.Prelude.{
  ℕ, ◌≡◌, ◌≢◌, ◌<◌, ◌^◌, ap, refl, arith, Option, none, some, List, [], ◌∷◌, Text, map, text_eq,
  filter_map, map_opt, and_then, Bool,
}
use agnoflow_engine.Types.Json.{
  opt_string, opt_json, opt_number, Json, null, bool, number, string, array, object, get, get_field,
  as_str, items_list, list_items,
}
use agnoflow_engine.Types.Wfah.{u32}
use agnoflow_engine.Ledger.Kind.{WfahKind}
use agnoflow_engine.Ledger.Payload.{
  WfahPayload, GrantPayload, BranchDropPayload, CollapsePayload, deadline, escalation,
  escalation_skipped, claim_taken, claim_released, trigger, call_return, call_truncated, fork,
  branch_arrived, join, collapse, branch_cancelled, branch_superseded, unknown, to_value, from_row,
  grant_json, read_grant, drop_json, read_drop, collapse_json, read_collapse, from_input, as_u64,
  not_null,
}

-- the kind of the rows that carry the payload
abbrev pub kind_of : WfahPayload Text → WfahKind
kind_of (deadline d) = WfahKind.deadline
kind_of (escalation after grant) = WfahKind.escalation
kind_of (escalation_skipped skipped after) = WfahKind.escalation_skipped
kind_of (claim_taken v) = WfahKind.claim_taken
kind_of (claim_released v) = WfahKind.claim_released
kind_of (trigger result error message handled required) = WfahKind.trigger
kind_of (call_return status callee) = WfahKind.call_return
kind_of (call_truncated callee omitted reason) = WfahKind.call_truncated
kind_of (fork branches target mode threshold when) = WfahKind.fork
kind_of (branch_arrived entry at_node by at claimed_at claimed_by) = WfahKind.branch_arrived
kind_of join = WfahKind.join
kind_of (collapse c) = WfahKind.collapse
kind_of (branch_cancelled d) = WfahKind.branch_cancelled
kind_of (branch_superseded d) = WfahKind.branch_superseded
kind_of (unknown v) = WfahKind.action

abbrev IsGiven : Option Json → Type 0
IsGiven none = ⊥
IsGiven (some v) = Unit

abbrev IsMeant : Option Json → Type 0
IsMeant o = o ≢ some null

abbrev Fits : Option ℕ → Type 0
Fits none = Unit
Fits (some n) = n < 2 ^ 32

-- What the JSON tells apart: an instant that is not left out, or not `null` where the reader takes
-- `null` for nothing, and a threshold of 32 bits.
abbrev pub IsReadable : WfahPayload Text → Type 0
IsReadable (deadline d) = IsGiven d
IsReadable (fork branches target mode threshold when) = Fits threshold
IsReadable (branch_arrived entry at_node by at claimed_at claimed_by) =
    IsGiven at × IsGiven claimed_at
IsReadable (collapse c) = IsGiven c.trigger_claimed_at
IsReadable (branch_cancelled d) =
    IsMeant d.claimed_at × IsMeant d.approved_by × IsMeant d.approved_at
IsReadable (branch_superseded d) =
    IsMeant d.claimed_at × IsMeant d.approved_by × IsMeant d.approved_at
IsReadable (unknown v) = ⊥
IsReadable (escalation after grant) = Unit
IsReadable (escalation_skipped skipped after) = Unit
IsReadable (claim_taken v) = Unit
IsReadable (claim_released v) = Unit
IsReadable (trigger result error message handled required) = Unit
IsReadable (call_return status callee) = Unit
IsReadable (call_truncated callee omitted reason) = Unit
IsReadable join = Unit

texts-nodes :
    (nodes : List Text) → filter_map as_str (items_list (list_items (map string nodes))) ≡ nodes
texts-nodes [] = refl
texts-nodes (n ∷ nodes) = ap (λ ns. n ∷ ns) (texts-nodes nodes)

opt_string-read : (o : Option Text) → as_str (opt_string o) ≡ o
opt_string-read none = refl
opt_string-read (some s) = refl

opt_json-read : (o : Option Json) → IsGiven o → some (opt_json o) ≡ o
opt_json-read none h = elim h [ ]
opt_json-read (some v) h = refl

threshold-read : (o : Option ℕ) → Fits o → map_opt u32 (as_u64 (opt_number o)) ≡ o
threshold-read none h = refl
threshold-read (some n) h = ap some (omega arith)

not_null-read : (o : Option Json) → IsMeant o → and_then o not_null ≡ o
not_null-read none h = refl
not_null-read (some null) h = absurd (h refl)
not_null-read (some (bool b)) h = refl
not_null-read (some (number n)) h = refl
not_null-read (some (string s)) h = refl
not_null-read (some (array xs)) h = refl
not_null-read (some (object m)) h = refl

trigger-read :
    (result : Option Json) (error message : Option Text) (handled required : Option Bool)
    → from_input WfahKind.trigger (to_value (trigger result error message handled required))
      ≡ trigger result error message handled required
unfolding from_row to_value get get_field text_eq
trigger-read result error message handled required = ground arith

grant-read : (g : GrantPayload) → read_grant (grant_json g) ≡ g
unfolding read_grant grant_json get get_field text_eq
grant-read g = ground arith

drop-read :
    (d : BranchDropPayload Text)
    → IsMeant d.claimed_at
    → IsMeant d.approved_by
    → IsMeant d.approved_at
    → read_drop (drop_json d) (d.branch_entry, d.at_node, d.reason) ≡ d
unfolding read_drop drop_json get get_field text_eq
drop-read d h k l = ground (
  arith,
  not_null-read d.claimed_at h,
  not_null-read d.approved_by k,
  not_null-read d.approved_at l,
  opt_string-read d.trigger_branch,
  opt_string-read d.trigger_action,
)

collapse-read :
    (c : CollapsePayload Text)
    → IsGiven c.trigger_claimed_at
    → read_collapse (collapse_json c) c.kind c.reason ≡ c
unfolding read_collapse collapse_json get get_field text_eq
collapse-read c h = rw (
  opt_string-read c.target,
  texts-nodes c.cancelled,
  texts-nodes c.superseded,
  opt_string-read c.trigger_branch,
  opt_string-read c.trigger_at_node,
  opt_string-read c.trigger_action,
  opt_string-read c.trigger_claimed_by,
  opt_json-read c.trigger_claimed_at h,
)

from_input-to_value :
    (p : WfahPayload Text) → IsReadable p → from_input (kind_of p) (to_value p) ≡ p
unfolding from_input to_value get get_field text_eq
from_input-to_value (deadline d) h = ap deadline (opt_json-read d h)
from_input-to_value (escalation after grant) h = ap (escalation after) (grant-read grant)
from_input-to_value (escalation_skipped skipped after) h = refl
from_input-to_value (claim_taken v) h = refl
from_input-to_value (claim_released v) h = refl
from_input-to_value (trigger result error message handled required) h =
    trigger-read result error message handled required
from_input-to_value (call_return status callee) h =
    rw (opt_string-read status, opt_string-read callee)
from_input-to_value (call_truncated callee omitted reason) h = rw (opt_string-read callee)
from_input-to_value (fork branches target mode threshold when) h =
    rw (texts-nodes branches, threshold-read threshold h, opt_string-read when)
from_input-to_value (branch_arrived entry at_node by at claimed_at claimed_by) h = rw (
  opt_string-read entry,
  opt_json-read at h.0,
  opt_json-read claimed_at h.1,
  opt_string-read claimed_by,
)
from_input-to_value join h = refl
from_input-to_value (collapse c) h = ap collapse (collapse-read c h)
from_input-to_value (branch_cancelled d) h = ap branch_cancelled (drop-read d h.0 h.1 h.2)
from_input-to_value (branch_superseded d) h = ap branch_superseded (drop-read d h.0 h.1 h.2)
from_input-to_value (unknown v) h = elim h [ ]

-- The payload of a marker row reads back from its JSON as it was, for a payload that JSON can tell
-- apart: its instants are given where the reader expects them, none of a dropped branch's optional
-- values is `null`, and a fork's threshold has 32 bits.
pub from_row-to_value :
    (p : WfahPayload Text) → IsReadable p → from_row (kind_of p) (some (to_value p)) ≡ p
unfolding from_row
from_row-to_value p h = from_input-to_value p h
