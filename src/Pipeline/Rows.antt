-- ===== src/Pipeline/Rows.antt =====
-- crates/wfe-core/src/v22/pipeline.rs: the rows that a transition stages, and the branch that a row
-- belongs to.
pub mod Numbered
pub mod Sequence
use agnoflow_engine.Prelude.{
  ℕ, ◌+◌, ◌&&◌, not, Option, none, some, List, [], ◌∷◌, ◌==◌, Text, codes, text_eq, find, rfind,
  map, last?, map_opt, and_then, or_opt, unwrap_or,
}
use agnoflow_engine.Types.Json.{Json}
use agnoflow_engine.Types.Actor.{Uuid, Instant, Actor}
use agnoflow_engine.Types.Wfah.{Wfah, WfahEntry, u32}
use agnoflow_engine.Types.Wfes.{BranchState, branch_is_active, Wfes}
use agnoflow_engine.Ledger.Kind.{claim_taken_marker}
use agnoflow_engine.Ledger.Valid.{round_of_opt}
use agnoflow_engine.Outcome.{CommitOutcome, from_node, to_node}

unfoldable pub stamp_movement : WfahEntry → CommitOutcome → Option Text → WfahEntry
stamp_movement entry outcome fallback_from = record entry {
  from_node = or_opt (from_node outcome) fallback_from;
  to_node = to_node outcome;
}

-- the number behind the ledger's last one
unfoldable pub next_seq : Wfah → ℕ
next_seq wfah = unwrap_or (map_opt (λ e. u32 (WfahEntry.seq e + 1)) (last? wfah)) 1

-- the number behind these rows, where the first has the number `seq`: `seq += 1` for each
abbrev pub seq_after : ℕ → List WfahEntry → ℕ
seq_after seq [] = seq
seq_after seq (e ∷ es) = seq_after (u32 (seq + 1)) es

-- the rows from the `i`th on
pub stage_rows_from :
    ℕ → ℕ → List (Text × Json) → Instant → Option Text → Option ℕ → Actor → List WfahEntry
stage_rows_from base i [] now branch_entry branch_round actor = []
stage_rows_from base i ((action, input) ∷ rows) now branch_entry branch_round actor =
    record {
      seq = u32 (base + i);
      action = action;
      actor = actor;
      input = some input;
      applied_at = now;
      from_node = none;
      to_node = none;
      branch_entry = branch_entry;
      branch_round = branch_round;
    }
    ∷ stage_rows_from base (i + 1) rows now branch_entry branch_round actor

pub stage_rows :
    List (Text × Json) → Wfes → Instant → Option Text → Option ℕ → Actor → List WfahEntry
unfolding stage_rows_from next_seq
stage_rows rows wfes now branch_entry branch_round actor =
    stage_rows_from (next_seq wfes.wfah) 0 rows now branch_entry branch_round actor

unfoldable pub claimant_actor : Wfah → Text → Uuid → Option Actor
claimant_actor wfah node_key owner = map_opt WfahEntry.actor (
    rfind
      (λ e.
        text_eq (WfahEntry.action e) (claim_taken_marker node_key)
        && Actor.user_id (WfahEntry.actor e) == owner)
      wfah)

unfoldable pub active_branch : Wfes → Text → Option BranchState
active_branch wfes node =
    find (λ b. branch_is_active (BranchState.status b) && text_eq (BranchState.branch_node b) node)
      wfes.branches

unfoldable pub branch_round_of : Wfah → Option Text → Option ℕ
branch_round_of wfah branch_entry = round_of_opt wfah branch_entry

pub branch_label : Wfes → Option Text → Option Text × Option ℕ
unfolding active_branch branch_round_of
branch_label wfes branch =
    let entry = map_opt BranchState.entry_node (and_then branch (active_branch wfes)) in
    (entry, branch_round_of wfes.wfah entry)

unfoldable pub all_entry_nodes : Wfes → List Text
all_entry_nodes wfes = map BranchState.entry_node wfes.branches

-- the actor of the system, in the unit of the last row that has one; the nil UUID is 0
unfoldable pub system_actor_anchored : Wfes → Actor
system_actor_anchored wfes = record {
  orgu_id =
      unwrap_or
        (map_opt (λ e. Actor.orgu_id (WfahEntry.actor e))
          (rfind (λ e. not (Actor.orgu_id (WfahEntry.actor e) == 0)) wfes.wfah))
        0;
  user_id = 0;
  role = codes "system";
}
