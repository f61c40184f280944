-- ===== src/Ledger/Ownership.antt =====
-- crates/wfe-core/src/v22/ownership.rs: the rows by which ownership of the work is taken and
-- released, and how long it was waited for.
use agnoflow_engine.Prelude.{
  ℕ, ◌-◌, ◌/◌, Bool, ◌&&◌, Option, none, some, List, [], ◌∷◌, ◌++◌, if◌then◌else◌, ltb, Text, codes,
  text_eq, opt_eq, rfind, map_opt,
}
use agnoflow_engine.Types.Json.{Json, number, pos_int, string, obj}
use agnoflow_engine.Types.Actor.{Uuid, Instant, ClaimAuthority, ca, grant}
use agnoflow_engine.Types.Wfah.{Wfah, WfahEntry}
use agnoflow_engine.Types.Wfd.{GlobalAction, global_action_text}
use agnoflow_engine.Types.Host.{Host}
use agnoflow_engine.Ledger.Kind.{
  ParsedMarker, WfahKind, parse_marker, claim_taken_marker, claim_released_marker,
}
use agnoflow_engine.Ledger.Payload.{if_some}

pub data ClaimVia : Type 0 where
  self_claim delegated assigned admin_assigned : ClaimVia

abbrev pub via_text : ClaimVia → Text
via_text self_claim = codes "self"
via_text delegated = codes "delegated"
via_text assigned = codes "assigned"
via_text admin_assigned = codes "admin_assigned"

abbrev pub authority_text : ClaimAuthority → Text
authority_text ca = codes "c_a"
authority_text grant = codes "grant"

pub data ClaimReason : Type 0 where
  self_release taken_by_other admin timeout grant_guard_false : ClaimReason

abbrev pub reason_text : ClaimReason → Text
reason_text self_release = codes "self"
reason_text taken_by_other = codes "taken_by_other"
reason_text admin = codes "admin"
reason_text timeout = codes "timeout"
reason_text grant_guard_false = codes "grant_guard_false"

pub record ClaimDelegation : Type 0 where
  pub delegation_id : Uuid
  pub delegator : Uuid
  pub seat_orgu_id : Uuid
  pub seat_role : Text

pub record OwnershipBranch : Type 0 where
  pub entry : Text
  pub at_node : Text

pub record ClaimTaken : Type 0 where
  pub node_key : Text
  pub owner : Uuid
  pub via : ClaimVia
  pub authority : ClaimAuthority
  pub waited_for_seconds : Option ℕ
  pub delegation : Option ClaimDelegation
  pub global_action : Option GlobalAction
  pub branch : Option OwnershipBranch

pub record ClaimReleased : Type 0 where
  pub node_key : Text
  pub owner : Uuid
  pub reason : ClaimReason
  pub held_for_seconds : Option ℕ
  pub after : Option Text
  pub global_action : Option GlobalAction
  pub branch : Option OwnershipBranch

-- `ClaimReleased::new`
abbrev pub released_for : Text → Uuid → ClaimReason → ClaimReleased
released_for node_key owner reason = record {
  node_key = node_key;
  owner = owner;
  reason = reason;
  held_for_seconds = none;
  after = none;
  global_action = none;
  branch = none;
}

-- `put_branch`
abbrev branch_kvs : Option OwnershipBranch → List (Text × Json)
branch_kvs none = []
branch_kvs (some b) =
    (codes "branch_entry", string b.entry) ∷ (codes "at_node", string b.at_node) ∷ []

abbrev seconds_json : ℕ → Json
seconds_json n = number (pos_int n)

module _ (host : Host) where
  delegation_json : ClaimDelegation → Json
  delegation_json d = obj (
      (codes "delegation_id", string (host.uuid_text d.delegation_id))
      ∷ (codes "delegator", string (host.uuid_text d.delegator))
      ∷ (
        codes "seat",
        obj (
            (codes "orgu_id", string (host.uuid_text d.seat_orgu_id))
            ∷ (codes "role", string d.seat_role)
            ∷ []),
      )
      ∷ [])

  pub taken_input : ClaimTaken → Json
  unfolding delegation_json
  taken_input t = obj (
      (codes "via", string (via_text t.via))
      ∷ (codes "authority", string (authority_text t.authority))
      ∷ (codes "owner", string (host.uuid_text t.owner))
      ∷ (if_some (codes "delegation") (map_opt delegation_json t.delegation)
          ++ (if_some (codes "global_action")
                (map_opt (λ g. string (global_action_text g)) t.global_action)
              ++ (if_some (codes "waited_for_seconds") (map_opt seconds_json t.waited_for_seconds)
                  ++ branch_kvs t.branch))))

  unfoldable pub released_input : ClaimReleased → Json
  released_input r = obj (
      (codes "reason", string (reason_text r.reason))
      ∷ (codes "owner", string (host.uuid_text r.owner))
      ∷ (if_some (codes "after") (map_opt string r.after)
          ++ (if_some (codes "global_action")
                (map_opt (λ g. string (global_action_text g)) r.global_action)
              ++ (if_some (codes "held_for_seconds") (map_opt seconds_json r.held_for_seconds)
                  ++ branch_kvs r.branch))))

-- `ClaimTaken::marker`, `ClaimReleased::marker`
abbrev pub taken_marker : ClaimTaken → Text
taken_marker t = claim_taken_marker t.node_key

abbrev pub released_marker : ClaimReleased → Text
released_marker r = claim_released_marker r.node_key

abbrev is_release : WfahKind → Bool
is_release WfahKind.claim_released = agnoflow_engine.Prelude.true
is_release _ = agnoflow_engine.Prelude.false

-- a release at this node, in this branch
pub releases : Text → Option Text → WfahEntry → Bool
releases node_key branch_entry e =
    opt_eq text_eq e.branch_entry branch_entry
    && (is_release (parse_marker e.action).kind
        && opt_eq text_eq (ParsedMarker.node (parse_marker e.action)) (some node_key))

unfoldable pub wait_base : Wfah → Text → Option Text → Instant → Instant
unfolding releases
wait_base wfah node_key branch_entry entered_at =
    elim (map_opt WfahEntry.applied_at (rfind (releases node_key branch_entry) wfah)) [
      | none ↦ entered_at
      | some at ↦ if ltb entered_at at then at else entered_at
    ]

-- whole seconds; a difference below zero is cut to zero, as `-` on ℕ does
unfoldable pub seconds_between : Instant → Instant → ℕ
seconds_between from to = (to - from) / 1000000000
