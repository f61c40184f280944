-- ===== src/Ledger/Kind.antt =====
-- crates/wfe-core/src/v22/wfah_kind.rs: the kind of a ledger row, read from its action text; and
-- the texts that the engine writes (v22/pipeline.rs and v22/ownership.rs).
pub mod Markers
use agnoflow_engine.Prelude.{
  ℕ, zero, suc, ◌+◌, Bool, true, false, Option, none, some, ◌∷◌, ◌++◌, if◌then◌else◌, Text, codes,
  text_eq, strip_prefix, strip_suffix, starts_with, split_once, rsplit_once, parse_usize,
  decimal_text, length,
}

pub data WfahKind : Type 0 where
  action deadline escalation escalation_skipped claim_taken claim_released trigger : WfahKind
  call_return call_truncated fork branch_arrived join collapse : WfahKind
  branch_cancelled branch_superseded : WfahKind

pub data WfahGroup : Type 0 where
  sla ownership parallel collapse_group call none_ : WfahGroup

unfoldable pub group : WfahKind → WfahGroup
group deadline = sla
group escalation = sla
group escalation_skipped = sla
group claim_taken = ownership
group claim_released = ownership
group fork = parallel
group branch_arrived = parallel
group join = parallel
group collapse = collapse_group
group branch_cancelled = collapse_group
group branch_superseded = collapse_group
group call_return = call
group call_truncated = call
group action = none_
group trigger = none_

abbrev pub is_action : WfahKind → Bool
is_action action = true
is_action _ = false

abbrev pub is_ownership : WfahKind → Bool
is_ownership claim_taken = true
is_ownership claim_released = true
is_ownership _ = false

pub record ParsedMarker : Type 0 where
  pub kind : WfahKind
  pub name : Option Text  -- the field `action`
  pub node : Option Text
  pub step : Option ℕ
  pub from_call : Option Text

abbrev pub plain : WfahKind → ParsedMarker
plain k = record { kind = k; name = none; node = none; step = none; from_call = none }

-- The node's key may hold `:` itself: the step stands behind the last one.
pub parse_step : WfahKind → Text → ParsedMarker
parse_step kind body = elim (rsplit_once b':' body) [
  | none ↦ record (plain kind) { node = some body }
  | some (n, idx) ↦ record (plain kind) { node = some n; step = parse_usize idx }
]

-- `escalate:<node>:<idx>`, with `:skipped` behind it when an administrator passed over the step
pub parse_escalation : Text → ParsedMarker
unfolding parse_step
parse_escalation rest = elim (strip_suffix (codes ":skipped") rest) [
  | none ↦ parse_step escalation rest
  | some body ↦ parse_step escalation_skipped body
]

pub parse_fixed : Text → ParsedMarker
parse_fixed raw =
    if text_eq raw (codes "timeout:deadline")
    then plain deadline
    else if text_eq raw (codes "_fork")
    then plain fork
    else if text_eq raw (codes "_branch_arrived")
    then plain branch_arrived
    else if text_eq raw (codes "_join")
    then plain join
    else if text_eq raw (codes "_collapse")
    then plain collapse
    else if text_eq raw (codes "_branch_cancelled")
    then plain branch_cancelled
    else if text_eq raw (codes "_branch_superseded")
    then plain branch_superseded
    else record (plain action) { name = some raw }

-- the markers outside a call
pub parse_own : Text → ParsedMarker
unfolding parse_escalation parse_fixed
parse_own raw = elim (strip_prefix (codes "escalate:") raw) [
  | some rest ↦ parse_escalation rest
  | none ↦ elim (strip_prefix (codes "claim_released:") raw) [
    | some node ↦ record (plain claim_released) { node = some node }
    | none ↦ elim (strip_prefix (codes "claim_taken:") raw) [
      | some node ↦ record (plain claim_taken) { node = some node }
      | none ↦ if starts_with (codes "trigger:") raw then plain trigger else parse_fixed raw
    ]
  ]
]

-- A call's own rows stand behind `call:<key>/`, one layer for each call. Each layer takes six
-- characters or more from the text, so that its length bounds the layers.
pub parse_layers : ℕ → Text → ParsedMarker
unfolding parse_own
parse_layers zero raw = parse_own raw
parse_layers (suc fuel) raw = elim (strip_prefix (codes "call:") raw) [
  | none ↦ parse_own raw
  | some rest ↦ elim (split_once b'/' rest) [
    | none ↦ record (plain call_return) { from_call = some rest }
    | some (key, inner) ↦
        let nested = parse_layers fuel inner in
        if text_eq inner (codes "…")
        then record (plain call_truncated) { from_call = some key }
        else record nested { from_call = some key }
  ]
]

unfoldable pub parse_marker : Text → ParsedMarker
unfolding parse_layers
parse_marker raw = parse_layers (length raw) raw

-- pipeline.rs: `escalation_marker`, `skipped_escalation_marker`
unfoldable pub escalation_marker : Text → ℕ → Text
escalation_marker node_key idx = codes "escalate:" ++ (node_key ++ b':' ∷ decimal_text idx)

unfoldable pub skipped_escalation_marker : Text → ℕ → Text
skipped_escalation_marker node_key idx = escalation_marker node_key idx ++ codes ":skipped"

-- ownership.rs: `ClaimTaken::marker`, `ClaimReleased::marker`
pub claim_taken_marker : Text → Text
claim_taken_marker node_key = codes "claim_taken:" ++ node_key

pub claim_released_marker : Text → Text
claim_released_marker node_key = codes "claim_released:" ++ node_key
