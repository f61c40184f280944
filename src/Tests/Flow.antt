-- ===== src/Tests/Flow.antt =====
-- A workflow with a fork, and the instances and the requests that the runs of the engine share.
use agnoflow_engine.Prelude.{
  ℕ, true, ◌^◌, Option, none, some, [], ◌∷◌, Text, codes, Result, ok, err,
}
use agnoflow_engine.Types.Json.{null, bool, obj}
use agnoflow_engine.Types.Attachments.{AttachmentItem, AttachmentRef}
use agnoflow_engine.Types.Wfd.{
  JoinMode, ParallelSpec, WftTarget, Wft, CallMode, InputDef, NodeDef, ActionDef, Wfd,
}
use agnoflow_engine.Types.Wfes.{WfeStatus}
use agnoflow_engine.Types.Commit.{AutoexecRunner, RunOutcome, ClaimRecheck, TransitionCommit}
use agnoflow_engine.Outcome.{move_to}
use agnoflow_engine.Pipeline.Seat.{Engine, Request}
use agnoflow_engine.Pipeline.Start.{StartRequest}
use agnoflow_engine.Sim.{SimState}
use agnoflow_engine.Tests.Data.{host, org, alice, review, wfd}

abbrev pub value_or {ℓ} : {E A : Type ℓ} → A → Result E A → A
value_or default (ok a) = a
value_or default (err e) = default

-- a runner whose every other run fails
abbrev pub exec : AutoexecRunner
exec = record {
  run = λ runs def env. elim runs [
    | ℕ.zero ↦ RunOutcome.timed_out
    | ℕ.suc n ↦ RunOutcome.finished (ok null)
  ];
}

abbrev pub engine : Engine
engine = record {
  host = host;
  org = org;
  exec = exec;
  env = record { full = []; public = record { vars = [] } };
  max_instant = 2 ^ 100;
}

abbrev no_input : InputDef
no_input = record { required = []; optional = [] }

abbrev pub action_to : Text → Wft → ActionDef
action_to from wft = record {
  input = no_input;
  from = from;
  when = some (codes "true");
  extra_c_a = none;
  wfes_effects = none;
  trigger = [];
  wft = wft;
}

abbrev pub plain : NodeDef
plain = record review { escalation = [] }

abbrev pub both : ParallelSpec
both = record {
  branches = codes "left" ∷ codes "right" ∷ [];
  join = WftTarget.node (codes "done");
  join_mode = JoinMode.and;
  join_threshold = none;
  join_when = none;
}

abbrev pub to_done : Wft
to_done = Wft.node (codes "done")

-- the return of a call leads on to the review
abbrev pub called : NodeDef
called = record plain {
  call = some record {
    use_ = codes "sub";
    mode = CallMode.wait;
    timeout = none;
    wfes_effects = none;
    wft = some (Wft.node (codes "review"));
    start_as = none;
    max_next = none;
  };
}

abbrev pub paper : AttachmentItem
paper = record { id = codes "paper"; label = none; required = true; formats = [] }

abbrev pub flow : Wfd
flow = record wfd {
  nodes =
      (codes "review", record plain { attachments = AttachmentRef.group (codes "file") ∷ [] })
      ∷ (codes "left", plain)
      ∷ (codes "right", plain)
      ∷ (codes "done", plain)
      ∷ (codes "wait", called)
      ∷ [];
  start = record { id = codes "s"; action = codes "open" } ∷ [];
  actions =
      (codes "open", action_to (codes "review") (Wft.node (codes "review")))
      ∷ (codes "split", action_to (codes "review") (Wft.parallel both))
      ∷ (
        codes "note",
        record (action_to (codes "review") (Wft.node (codes "review"))) {
          wfes_effects = some record { set = (codes "x", bool true) ∷ []; set_when = [] };
        },
      )
      ∷ (codes "left_done", action_to (codes "left") to_done)
      ∷ (codes "right_done", action_to (codes "right") to_done)
      ∷ [];
  attachments = (codes "file", record { items = paper ∷ [] }) ∷ [];
}

abbrev pub opening : StartRequest
opening = record {
  actor = alice;
  orgtnt_id = 9;
  action = none;
  input = null;
  wfe_id = 5;
  deadline = none;
}

abbrev pub request : Text → Option Text → Request
request action node = record {
  actor = alice;
  action = action;
  input = obj [];
  node_hint = node;
  target = none;
}

-- what stands for an instance where none comes about
abbrev pub blank : SimState
blank = record {
  wfe_id = 0;
  orgtnt_id = 0;
  dynctx = null;
  wfah = [];
  current_node = none;
  status = WfeStatus.error;
  end_response = none;
  end_terminal = none;
  visited_nodes = [];
  branches = [];
  join_target = none;
  join_threshold = none;
  join_when = none;
  pending_calls = [];
  attachments = [];
}

abbrev pub no_commit : TransitionCommit
no_commit = record {
  wfe_id = 0;
  orgtnt_id = 0;
  new_dynctx = null;
  wfah_entries = [];
  outcome = move_to [];
  resolved_c_a = [];
  staged_calls = [];
  claim_recheck = ClaimRecheck.kept;
  end_terminal = none;
}
