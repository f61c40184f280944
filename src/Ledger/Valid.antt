-- ===== src/Ledger/Valid.antt =====
-- crates/wfe-core/src/v22/valid.rs: which rows of the ledger still count (`$valid`), and the round
-- of a parallel branch.
pub mod Rounds
pub mod Permanence
pub mod Markers
use agnoflow_engine.Prelude.{
  ℕ, Bool, true, false, ◌&&◌, ◌||◌, not, Option, none, some, List, [], ◌∷◌, ltb, leb, if◌then◌else◌,
  Text, codes, text_eq, strip_prefix, any, filter, find_map, rfind, take_while, head?, length,
  opt_eq, is_some, and_then, map_opt, unwrap_or, or_opt,
}
use Prim.Native.Nat.{max}
use agnoflow_engine.Types.Json.{Json, get, as_str, as_array}
use agnoflow_engine.Types.Wfah.{Wfah, WfahEntry, u32}
use agnoflow_engine.Types.Wfd.{
  Wfd, ActionDef, Wft, send_back, GlobalAction, send_to_start, global_action_text,
}
use agnoflow_engine.Ledger.Kind.{parse_marker, is_action, is_ownership}

abbrev fork_action : Text
fork_action = codes "_fork"

abbrev join_action : Text
join_action = codes "_join"

abbrev branch_cancelled_action : Text
branch_cancelled_action = codes "_branch_cancelled"

abbrev branch_superseded_action : Text
branch_superseded_action = codes "_branch_superseded"

abbrev collapse_action : Text
collapse_action = codes "_collapse"

pub fork_branches : WfahEntry → List Json
fork_branches e =
    unwrap_or (and_then (and_then e.input (λ i. get (codes "branches") i)) as_array) []

pub is_text : Text → Json → Bool
is_text t v = opt_eq text_eq (as_str v) (some t)

pub fork_opens : WfahEntry → Text → Bool
unfolding fork_branches is_text
fork_opens e branch_entry = any (is_text branch_entry) (fork_branches e)

-- a row that opens the branch
pub opens : Text → WfahEntry → Bool
opens branch_entry e = text_eq e.action fork_action && fork_opens e branch_entry

-- `count() as u32`
pub round_of : Wfah → Text → ℕ
unfolding opens fork_opens
round_of wfah branch_entry = u32 (length (filter (opens branch_entry) wfah))

unfoldable pub round_of_opt : Wfah → Option Text → Option ℕ
unfolding round_of
round_of_opt wfah branch_entry = map_opt (λ e. max (round_of wfah e) 1) branch_entry

pub last_fork_seq : Wfah → Text → Option ℕ
last_fork_seq wfah branch_entry = map_opt (λ e. WfahEntry.seq e) (rfind (opens branch_entry) wfah)

pub before_boundary : ℕ → Option ℕ → Bool
before_boundary seq none = false
before_boundary seq (some boundary) = ltb seq boundary

pub eliminated_by_round : Wfah → WfahEntry → Bool
unfolding before_boundary last_fork_seq opens fork_opens
eliminated_by_round wfah row = elim row.branch_entry [
  | none ↦ false
  | some entry ↦ before_boundary row.seq (last_fork_seq wfah entry)
]

pub is_closer : Text → Bool
is_closer a = text_eq a join_action || text_eq a collapse_action

-- The round that is open now, if the last fork is not closed.
unfoldable pub live_round : Wfah → Option ℕ
unfolding is_closer round_of
live_round wfah = and_then (rfind (λ e. text_eq (WfahEntry.action e) fork_action) wfah) λ last_fork.
    if any (λ e. ltb last_fork.seq (WfahEntry.seq e) && is_closer (WfahEntry.action e)) wfah
    then none
    else map_opt (round_of wfah) (and_then (head? (fork_branches last_fork)) as_str)

pub data InvalidReason : Type 0 where
  branch_cancelled branch_superseded sent_back_window ownership old_round : InvalidReason

pub record ValidRules : Type 0 where
  pub send_back_actions : List Text

pub is_admin_send_back : Text → Bool
unfolding strip_prefix global_action_text
is_admin_send_back action =
    any (λ g. opt_eq text_eq (strip_prefix (codes "admin:") action) (some (global_action_text g)))
      (GlobalAction.send_back ∷ send_to_start ∷ [])

abbrev is_send_back_wft : Wft → Bool
is_send_back_wft (Wft.send_back targets) = true
is_send_back_wft _ = false

pub send_back_action_keys : Wfd → List Text
send_back_action_keys wfd =
    agnoflow_engine.Prelude.map (λ kv. kv.0)
      (filter (λ (kv : Text × ActionDef). is_send_back_wft (ActionDef.wft kv.1)) wfd.actions)

-- Every version has the same rules.
unfoldable pub for_version : Wfd → ValidRules
unfolding send_back_action_keys
for_version wfd = record { send_back_actions = send_back_action_keys wfd }

pub is_send_back : ValidRules → Text → Bool
unfolding is_admin_send_back
is_send_back rules action =
    any (text_eq action) rules.send_back_actions || is_admin_send_back action

abbrev pub branch_marker_reason : Text → Option InvalidReason
branch_marker_reason action =
    if text_eq action branch_cancelled_action
    then some branch_cancelled
    else if text_eq action branch_superseded_action
    then some branch_superseded
    else none

pub eliminated_by_branch_marker : Wfah → WfahEntry → Option InvalidReason
eliminated_by_branch_marker wfah row = elim row.branch_entry [
  | none ↦ none
  | some entry ↦
      find_map (λ m. branch_marker_reason (WfahEntry.action m))
        (filter
          (λ m.
            opt_eq text_eq (WfahEntry.branch_entry m) (some entry) && ltb row.seq (WfahEntry.seq m))
          wfah)
]

abbrev is_sent_back_collapse : WfahEntry → Bool
is_sent_back_collapse m =
    text_eq m.action collapse_action
    && opt_eq text_eq (and_then (and_then m.input (λ i. get (codes "reason") i)) as_str)
        (some (codes "sent_back"))

pub is_collapsing_send_back : Wfah → WfahEntry → Bool
is_collapsing_send_back wfah s = any is_sent_back_collapse (
    take_while (λ m. not (is_action (parse_marker (WfahEntry.action m)).kind))
      (filter (λ m. ltb s.seq (WfahEntry.seq m)) wfah))

-- `map(seq).max().unwrap_or(0)`
abbrev max_seq : List WfahEntry → ℕ
max_seq [] = 0
max_seq (e ∷ es) = max e.seq (max_seq es)

-- the last entry into `target` before `s`
pub left_end : Wfah → WfahEntry → Text → ℕ
left_end wfah s target = max_seq (
    filter (λ r. ltb (WfahEntry.seq r) s.seq && opt_eq text_eq (WfahEntry.to_node r) (some target))
      wfah)

-- A send-back inside a branch that leaves the others alone does not reach their rows.
pub is_spared : Wfah → WfahEntry → WfahEntry → Bool
is_spared wfah s row =
    is_some s.branch_entry
    && not (is_collapsing_send_back wfah s)
    && not (opt_eq text_eq row.branch_entry s.branch_entry)

-- One round of the loop: does the send-back `s` take the row out? The source's `continue`s are the
-- tests that answer `false`.
pub takes_out : Wfah → ValidRules → WfahEntry → WfahEntry → Bool
unfolding left_end is_spared is_collapsing_send_back
takes_out wfah rules row s =
    if leb s.seq row.seq || not (is_send_back rules s.action) then false else elim s.to_node [
      | none ↦ false
      | some target ↦
          if leb row.seq (left_end wfah s target) then false else not (is_spared wfah s row)
    ]

send_back_loop : Wfah → ValidRules → WfahEntry → List WfahEntry → Option InvalidReason
send_back_loop wfah rules row [] = none
send_back_loop wfah rules row (s ∷ rest) =
    let next = send_back_loop wfah rules row rest in
    if takes_out wfah rules row s then some sent_back_window else next

pub eliminated_by_send_back : Wfah → ValidRules → WfahEntry → Option InvalidReason
unfolding send_back_loop takes_out is_send_back
eliminated_by_send_back wfah rules row = send_back_loop wfah rules row wfah

unfoldable pub invalid_reason : Wfah → ValidRules → WfahEntry → Option InvalidReason
unfolding eliminated_by_round eliminated_by_branch_marker eliminated_by_send_back parse_marker
invalid_reason wfah rules row =
    if is_ownership (parse_marker row.action).kind
    then some ownership
    else if eliminated_by_round wfah row
    then some old_round
    else or_opt (eliminated_by_branch_marker wfah row) (eliminated_by_send_back wfah rules row)

unfoldable pub derive_valid : Wfah → ValidRules → List WfahEntry
unfolding invalid_reason
derive_valid wfah rules = filter (λ row. not (is_some (invalid_reason wfah rules row))) wfah
