-- ===== src/Pipeline/Join.antt =====
-- crates/wfe-core/src/v22/pipeline.rs: the branches that have arrived at a join, and the rows by
-- which the system records a fork, an arrival and a collapse.
pub mod Dropped
pub mod Markers
use agnoflow_engine.Prelude.{
  ℕ, ◌+◌, Bool, true, false, ◌&&◌, not, Option, none, some, List, [], ◌∷◌, ◌++◌, ◌==◌, ltb,
  if◌then◌else◌, Text, codes, text_eq, opt_eq, find, find_map, filter, map, reverse, map_opt,
  and_then, unwrap_or,
}
use agnoflow_engine.Types.Json.{
  Json, null, string, obj, get, as_str, opt_string, opt_json, opt_number,
}
use agnoflow_engine.Types.Actor.{Uuid, Instant, Actor}
use agnoflow_engine.Types.Wfah.{Wfah, WfahEntry, u32}
use agnoflow_engine.Types.Wfd.{WftTarget, JoinRule}
use agnoflow_engine.Types.Wfes.{BranchStatus, BranchState, branch_is_active, Wfes}
use agnoflow_engine.Types.Host.{Host}
use agnoflow_engine.Outcome.{
  CommitOutcome, CollapseCause, move_to, stay_at, terminal, failed, terminated, fork_to,
  branch_move_to, branch_arrived, join_complete, collapse_to,
}
use agnoflow_engine.Ledger.Projection.{actor_json}
use agnoflow_engine.Ledger.Payload.{WfahPayload, CollapsePayload, BranchDropPayload, to_value}
use agnoflow_engine.Pipeline.Rows.{active_branch, branch_round_of}

abbrev pub is_arrived : BranchStatus → Bool
is_arrived BranchStatus.arrived = true
is_arrived _ = false

-- the order of texts: by code points, as that of their UTF-8 bytes
pub text_leb : Text → Text → Bool
text_leb [] t = true
text_leb (x ∷ s) [] = false
text_leb (x ∷ s) (y ∷ t) = let rest = text_leb s t in if ltb x y then true else x == y && rest

pub insert_text : Text → List Text → List Text
unfolding text_leb
insert_text x [] = x ∷ []
insert_text x (y ∷ ys) =
    let rest = insert_text x ys in if text_leb x y then x ∷ y ∷ ys else y ∷ rest

-- `sort`
pub sort : List Text → List Text
unfolding insert_text
sort [] = []
sort (x ∷ xs) = insert_text x (sort xs)

abbrev pub keep_first : Text → List Text → List Text
keep_first x [] = x ∷ []
keep_first x (y ∷ ys) = if text_eq x y then y ∷ ys else x ∷ y ∷ ys

-- `dedup`, of neighbours
pub dedup : List Text → List Text
dedup [] = []
dedup (x ∷ xs) = keep_first x (dedup xs)

abbrev pub opt_entry : Option BranchState → List Text
opt_entry none = []
opt_entry (some b) = b.entry_node ∷ []

unfoldable pub arrived_entries_with : Wfes → Text → List Text
unfolding sort dedup active_branch
arrived_entries_with wfes acting_branch = dedup (
    sort (
      map BranchState.entry_node (filter (λ b. is_arrived (BranchState.status b)) wfes.branches)
      ++ opt_entry (active_branch wfes acting_branch)))

pub data TriggerKind : Type 0 where
  branch admin system : TriggerKind

abbrev pub kind_text : TriggerKind → Text
kind_text branch = codes "branch"
kind_text admin = codes "admin"
kind_text system = codes "system"

pub record Trigger : Type 0 where
  pub kind : TriggerKind
  pub branch : Option Text
  pub action : Option Text
  pub actor : Actor

abbrev approval_in : Text → Json → Option (Json × Json)
approval_in branch_entry input =
    if opt_eq text_eq (and_then (get (codes "branch_entry") input) as_str) (some branch_entry)
    then some (
      unwrap_or (get (codes "approved_by") input) null,
      unwrap_or (get (codes "approved_at") input) null,
    )
    else none

-- the last arrival of the branch
pub branch_approval : Wfah → Text → Json × Json
branch_approval wfah branch_entry =
    unwrap_or
      (find_map (λ e. and_then (WfahEntry.input e) (approval_in branch_entry))
        (filter (λ e. text_eq (WfahEntry.action e) (codes "_branch_arrived")) (reverse wfah)))
      (null, null)

-- `JoinRule::kind`
abbrev pub rule_text : JoinRule → Text
rule_text JoinRule.all = codes "and"
rule_text (JoinRule.quorum k) = codes "or"
rule_text (JoinRule.expr e) = codes "expr"

abbrev pub rule_threshold : JoinRule → Option ℕ
rule_threshold (JoinRule.quorum k) = some k
rule_threshold _ = none

abbrev pub rule_when : JoinRule → Option Text
rule_when (JoinRule.expr e) = some e
rule_when _ = none

abbrev target_json : WftTarget → Json
target_json (WftTarget.node n) = obj ((codes "node", string n) ∷ [])
target_json (WftTarget.terminal t) = obj ((codes "terminal", string t) ∷ [])

abbrev pub system_actor : Actor
system_actor = record { orgu_id = 0; user_id = 0; role = codes "system" }

-- a row before its number: the action, the branch that it is about, the input
abbrev pub Draft : Type 0
Draft = Text × Option Text × Json

-- `push`, on the row's number and on those behind it
pub number_rows : Wfah → Instant → ℕ → List Draft → List WfahEntry
number_rows wfah now seq [] = []
number_rows wfah now seq ((action, entry, input) ∷ drafts) =
    record {
      seq = seq;
      action = action;
      actor = system_actor;
      input = some input;
      applied_at = now;
      from_node = none;
      to_node = none;
      branch_entry = entry;
      branch_round = branch_round_of wfah entry;
    }
    ∷ number_rows wfah now (u32 (seq + 1)) drafts

-- How the parallel mode ends by this outcome, if it does: reason, kind and target. The first three
-- only where the instance is forked.
pub record Ending : Type 0 where
  pub reason : Text
  pub kind : Text
  pub target : Option Text

abbrev if_forked : Bool → Ending → Option Ending
if_forked true e = some e
if_forked false e = none

abbrev moved_node : CommitOutcome → Option Text
moved_node (move_to node) = some node
moved_node _ = none

abbrev ending : Text → Text → Option Text → Ending
ending reason kind target = record { reason = reason; kind = kind; target = target }

unfoldable pub collapse_of : Bool → CommitOutcome → Option Ending
collapse_of forked (terminal r) =
    if_forked forked (ending (codes "sibling_terminal") (codes "terminal") none)
collapse_of forked (failed r) = if_forked forked (ending (codes "failed") (codes "failed") none)
collapse_of forked (terminated r) =
    if_forked forked (ending (codes "terminated") (codes "terminated") none)
collapse_of forked (collapse_to from node CollapseCause.collapse) =
    some (ending (codes "collapsed") (codes "collapse_to") (some node))
collapse_of forked (collapse_to from node CollapseCause.sent_back) =
    some (ending (codes "sent_back") (codes "sent_back") (some node))
collapse_of forked (join_complete from true arrived next) =
    some (ending (codes "join_quorum") (codes "join_quorum") (moved_node next))
collapse_of forked (join_complete from false arrived next) = none
collapse_of forked (move_to node) = none
collapse_of forked (stay_at node) = none
collapse_of forked (fork_to bs join rule) = none
collapse_of forked (branch_move_to from node) = none
collapse_of forked (branch_arrived from arrived) = none

abbrev pub is_quorum_collapse : CommitOutcome → Bool
is_quorum_collapse (join_complete from true arrived next) = true
is_quorum_collapse _ = false

-- the branches but the one that acts
abbrev pub is_sibling : Option Text → BranchState → Bool
is_sibling acting b = not (opt_eq text_eq (some b.branch_node) acting)

unfoldable pub cancelled_branches : Wfes → Option Text → List BranchState
cancelled_branches wfes acting =
    filter (λ b. is_sibling acting b && branch_is_active (BranchState.status b)) wfes.branches

pub superseded_branches : Wfes → Option Text → CommitOutcome → List BranchState
superseded_branches wfes acting outcome =
    filter
      (λ b.
        is_sibling acting b
        && (is_arrived (BranchState.status b) && not (is_quorum_collapse outcome)))
      wfes.branches

abbrev branch_at : Wfes → Text → Option BranchState
branch_at wfes node = find (λ b. text_eq (BranchState.branch_node b) node) wfes.branches

module _ (host : Host) where
  abbrev opt_instant : Option Instant → Json
  opt_instant at = opt_string (map_opt host.rfc3339 at)

  pub fork_draft : List Text → WftTarget → JoinRule → Draft
  fork_draft branches join rule = (
    codes "_fork",
    none,
    to_value (
        WfahPayload.fork branches (target_json join) (rule_text rule)
          (map_opt u32 (rule_threshold rule)) (rule_when rule)),
  )

  pub arrival_draft : Wfes → Trigger → Text → Instant → Draft
  arrival_draft wfes trigger from_node now =
      let arriving = branch_at wfes from_node in
      (
        codes "_branch_arrived",
        map_opt BranchState.entry_node arriving,
        to_value (
            WfahPayload.branch_arrived (map_opt BranchState.entry_node arriving) from_node
              (actor_json host trigger.actor) (some (string (host.rfc3339 now)))
              (some (opt_instant (and_then arriving BranchState.claimed_at)))
              (map_opt host.uuid_text (and_then arriving BranchState.claimed_by))),
      )

  pub arrival_drafts : Wfes → Trigger → CommitOutcome → Instant → List Draft
  unfolding fork_draft arrival_draft
  arrival_drafts wfes trigger (fork_to bs join rule) now = fork_draft bs join rule ∷ []
  arrival_drafts wfes trigger (branch_arrived from arrived) now =
      arrival_draft wfes trigger from now ∷ []
  arrival_drafts wfes trigger (join_complete from quorum arrived next) now =
      arrival_draft wfes trigger from now ∷ []
  arrival_drafts wfes trigger (move_to node) now = []
  arrival_drafts wfes trigger (stay_at node) now = []
  arrival_drafts wfes trigger (terminal r) now = []
  arrival_drafts wfes trigger (failed r) now = []
  arrival_drafts wfes trigger (terminated r) now = []
  arrival_drafts wfes trigger (branch_move_to from node) now = []
  arrival_drafts wfes trigger (collapse_to from node cause) now = []

  abbrev pub acting_branch : Wfes → Trigger → Option BranchState
  acting_branch wfes trigger = and_then trigger.branch (branch_at wfes)

  pub collapse_draft : Wfes → Trigger → CommitOutcome → Ending → Draft
  collapse_draft wfes trigger outcome how =
      let acting = acting_branch wfes trigger in
      (
        codes "_collapse",
        none,
        to_value (
            WfahPayload.collapse record {
              kind = how.kind;
              reason = how.reason;
              target = how.target;
              cancelled = map BranchState.entry_node (cancelled_branches wfes trigger.branch);
              superseded =
                  map BranchState.entry_node (superseded_branches wfes trigger.branch outcome);
              trigger_kind = kind_text trigger.kind;
              trigger_branch = map_opt BranchState.entry_node acting;
              trigger_at_node = trigger.branch;
              trigger_action = trigger.action;
              trigger_actor = actor_json host trigger.actor;
              trigger_claimed_by = map_opt host.uuid_text (and_then acting BranchState.claimed_by);
              trigger_claimed_at = some (opt_instant (and_then acting BranchState.claimed_at));
            }),
      )

  pub cancelled_draft : Wfes → Trigger → Ending → BranchState → Draft
  cancelled_draft wfes trigger how b = (
    codes "_branch_cancelled",
    some b.entry_node,
    to_value (
        WfahPayload.branch_cancelled record {
          branch_entry = b.entry_node;
          at_node = b.branch_node;
          reason = how.reason;
          claimed_by = map_opt host.uuid_text b.claimed_by;
          claimed_at = some (opt_instant b.claimed_at);
          approved_by = none;
          approved_at = none;
          trigger_kind = kind_text trigger.kind;
          trigger_branch = map_opt BranchState.entry_node (acting_branch wfes trigger);
          trigger_action = trigger.action;
          trigger_actor = actor_json host trigger.actor;
        }),
  )

  pub superseded_draft : Wfes → Trigger → Ending → BranchState → Draft
  superseded_draft wfes trigger how b =
      let approval = branch_approval wfes.wfah b.entry_node in
      (
        codes "_branch_superseded",
        some b.entry_node,
        to_value (
            WfahPayload.branch_superseded record {
              branch_entry = b.entry_node;
              at_node = b.branch_node;
              reason = how.reason;
              claimed_by = none;
              claimed_at = none;
              approved_by = some approval.0;
              approved_at = some approval.1;
              trigger_kind = kind_text trigger.kind;
              trigger_branch = map_opt BranchState.entry_node (acting_branch wfes trigger);
              trigger_action = trigger.action;
              trigger_actor = actor_json host trigger.actor;
            }),
      )

  pub ending_drafts : Wfes → Trigger → CommitOutcome → Option Ending → List Draft
  unfolding collapse_draft cancelled_draft superseded_draft cancelled_branches superseded_branches
  ending_drafts wfes trigger outcome none = []
  ending_drafts wfes trigger outcome (some how) =
      collapse_draft wfes trigger outcome how
      ∷ (map (cancelled_draft wfes trigger how) (cancelled_branches wfes trigger.branch)
          ++ map (superseded_draft wfes trigger how)
              (superseded_branches wfes trigger.branch outcome))

  -- the rows that it appends, the first with the number `seq`
  unfoldable pub stage_parallel_markers :
      Wfes → Trigger → CommitOutcome → ℕ → Instant → List WfahEntry
  unfolding number_rows arrival_drafts ending_drafts collapse_of
  stage_parallel_markers wfes trigger outcome seq now = number_rows wfes.wfah now seq (
      arrival_drafts wfes trigger outcome now
      ++ ending_drafts wfes trigger outcome
          (collapse_of (agnoflow_engine.Prelude.is_some wfes.join_target) outcome))
