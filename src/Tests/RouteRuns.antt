-- ===== src/Tests/RouteRuns.antt =====
-- The theorems on routes and on the end of a fork (crates/wfe-core/src/v22/pipeline.rs), on the payloads
-- of the ledger (wfah_payload.rs) and on uploads (attachments.rs), at concrete inputs.
use agnoflow_engine.Prelude.{
  split, strip_prefix, strip_suffix, ℕ, ◌≡◌, ◌↔◌, refl, true, false, none, some, [], ◌∷◌, ◌++◌,
  Memᴰ, codes, ok, Text, arith, text_eq, text_eq-apart, ap, unwrap_or, is_some, trim,
}
use agnoflow_engine.Types.Json.{null, string, obj}
use agnoflow_engine.Types.Attachments.{AttachmentItem}
use agnoflow_engine.Types.Wfah.{WfahEntry}
use agnoflow_engine.Types.Wfd.{WftTarget, JoinRule, Wft}
use agnoflow_engine.Types.Wfes.{BranchState, Wfes}
use agnoflow_engine.Attachments.{mime_matches, check_upload}
use agnoflow_engine.Attachments.Gate.{Taken, check_upload_sound}
use agnoflow_engine.Outcome.{CommitOutcome, branch_arrived, terminal}
use agnoflow_engine.Ledger.Order.{Increasing}
use agnoflow_engine.Ledger.Valid.{for_version, invalid_reason}
use agnoflow_engine.Ledger.Payload.{WfahPayload, from_row, to_value}
use agnoflow_engine.Ledger.Payload.RoundTrip.{kind_of, from_row-to_value}
use agnoflow_engine.Pipeline.Graph.{fork_subgraph}
use agnoflow_engine.Pipeline.Graph.Reach.{Walk, fork_subgraph_iff}
use agnoflow_engine.Pipeline.Route.{BranchMode, branch, Situation, resolve_wft}
use agnoflow_engine.Pipeline.Route.Branches.{Routes, resolve_wft_sound}
use agnoflow_engine.Pipeline.Join.{
  Trigger, TriggerKind, collapse_of, cancelled_branches, stage_parallel_markers,
}
use agnoflow_engine.Pipeline.Join.Dropped.{Drops, cancels, ended, dropped-invalid}
use agnoflow_engine.Pipeline.Apply.{situation}
use agnoflow_engine.Sim.{forked_branch}
use agnoflow_engine.Tests.Data.{host, alice, row, wfes_with}
use agnoflow_engine.Tests.Flow.{engine, flow, both, request}
use agnoflow_engine.Tests.FlowRuns.{with_owner}

abbrev here_now : Situation
here_now = situation engine flow 2 with_owner (request (codes "split") none)

-- the left branch, while the right one is active
abbrev left_branch : BranchMode
left_branch = record {
  join = WftTarget.node (codes "done");
  from_node = codes "left";
  others_active = 1;
  rule = JoinRule.all;
  all_entries = both.branches;
  arrived_entries = codes "left" ∷ [];
}

-- it comes to the join, and waits
it_waits :
    resolve_wft host here_now (Wft.node (codes "done")) (obj []) (branch left_branch) false
    ≡ ok (branch_arrived (codes "left") (codes "left" ∷ []), obj [], none)
unfolding resolve_wft text_eq
it_waits = refl

resolve_wft_sound_example :
    Routes host here_now
      (Wft.node (codes "done"))
      (branch left_branch)
      false
      (obj [])
      (branch_arrived (codes "left") (codes "left" ∷ []))
resolve_wft_sound_example =
    resolve_wft_sound host here_now (Wft.node (codes "done")) (obj []) (branch left_branch) false
      it_waits

fork_subgraph_iff_example :
    Memᴰ (codes "done") (fork_subgraph flow both.branches both.join)
    ↔ Walk flow both.branches both.join (codes "done")
fork_subgraph_iff_example = fork_subgraph_iff flow both.branches both.join (codes "done")

-- the left branch ends the instance; a row of the right one stands in the ledger
abbrev right_branch : BranchState
right_branch = forked_branch 1 (codes "right")

abbrev right_row : WfahEntry
right_row = record (row 1 (codes "check") none) { branch_entry = some (codes "right") }

abbrev in_fork : Wfes
in_fork = record (wfes_with (right_row ∷ [])) {
  current_node = none;
  branches = forked_branch 1 (codes "left") ∷ right_branch ∷ [];
  join_target = some (WftTarget.node (codes "done"));
}

abbrev by_left : Trigger
by_left = record {
  kind = TriggerKind.branch;
  branch = some (codes "left");
  action = some (codes "stop");
  actor = alice;
}

abbrev over : CommitOutcome
over = terminal null

rows_grow : Increasing (in_fork.wfah ++ stage_parallel_markers host in_fork by_left over 2 5)
unfolding stage_parallel_markers text_eq collapse_of cancelled_branches
rows_grow = ((omega arith, (omega arith, tt)), ((omega arith, tt), (tt, tt)))

left_is_not_right : text_eq (codes "left") (codes "right") ≡ false
unfolding text_eq
left_is_not_right = refl

right_is_dropped : Drops host in_fork by_left over 2 5 right_branch
right_is_dropped =
    cancels ended (Memᴰ.tail (Memᴰ.head refl))
      (λ e.
        text_eq-apart (codes "left") (codes "right") left_is_not_right (ap (λ o. unwrap_or o []) e))
      refl

dropped-invalid_example :
    is_some (
      invalid_reason
        (in_fork.wfah ++ stage_parallel_markers host in_fork by_left over 2 5)
        (for_version flow)
        right_row)
    ≡ true
dropped-invalid_example =
    dropped-invalid host in_fork by_left over 2 5 (for_version flow) right_branch right_row
      rows_grow right_is_dropped (Memᴰ.head refl) refl

abbrev arrival : WfahPayload Text
arrival =
    WfahPayload.branch_arrived (some (codes "left")) (codes "left") (string (codes "a"))
      (some (string (codes "t"))) (some null) none

from_row-to_value_example : from_row (kind_of arrival) (some (to_value arrival)) ≡ arrival
from_row-to_value_example = from_row-to_value arrival (tt, tt)

abbrev scan : AttachmentItem
scan = record {
  id = codes "scan";
  label = none;
  required = true;
  formats = record { accept = codes "image/*" ∷ []; max_size_mb = some (codes "4") } ∷ [];
}

abbrev four : Text → ℕ
four mb = 4194304

scan_fits : check_upload four scan (some (codes " image/png")) 4194304 ≡ ok tt
unfolding check_upload mime_matches text_eq trim strip_suffix strip_prefix split
scan_fits = refl

check_upload_sound_example : Taken four scan (trim (codes " image/png")) 4194304
check_upload_sound_example =
    check_upload_sound four scan (some (codes " image/png")) 4194304 scan_fits
