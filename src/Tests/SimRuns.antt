-- ===== src/Tests/SimRuns.antt =====
-- The simulation's theorems (crates/wfe/src/sim.rs) at an instance that has been started, been given an
-- upload, and been forked.
use agnoflow_engine.Prelude.{◌≡◌, refl, true, none, some, [], codes, Memᴰ, arith, lookup, text_eq}
use agnoflow_engine.Attachments.{GateSlot, gate_slots}
use agnoflow_engine.Sim.{active_nodes, has_attachment}
use agnoflow_engine.Sim.Gates.{advance-uploaded}
use agnoflow_engine.Sim.Shape.{Shape}
use agnoflow_engine.Sim.Progress.{FullForks}
use agnoflow_engine.Sim.Reach.{Reach, begun, followed, advanced, uploaded, Shape-Reach}
use agnoflow_engine.Sim.Visited.{active_nodes-visited}
use agnoflow_engine.Tests.Flow.{engine, flow, opening, request}
use agnoflow_engine.Tests.FlowRuns.{
  is_opened, max_bytes, upload, with_paper, is_uploaded, fork_state, is_split,
}

forks_are_full : FullForks flow
forks_are_full = ((tt, (omega arith, (tt, (tt, (tt, tt))))), (tt, (tt, (tt, (tt, (tt, tt))))))

Reach-paper : Reach engine flow max_bytes with_paper
Reach-paper = followed (begun 1 opening is_opened) (uploaded upload is_uploaded)

Reach-fork : Reach engine flow max_bytes fork_state
Reach-fork = followed Reach-paper (advanced 2 (request (codes "split") none) is_split)

Shape-Reach_example : Shape fork_state
Shape-Reach_example = Shape-Reach engine flow max_bytes forks_are_full Reach-fork

left_waits : Memᴰ (codes "left") (active_nodes fork_state)
unfolding active_nodes
left_waits = Memᴰ.head refl

active_nodes-visited_example : Memᴰ (codes "left") fork_state.visited_nodes
active_nodes-visited_example =
    active_nodes-visited engine flow max_bytes (codes "left") Reach-fork left_waits

abbrev paper_slot : GateSlot
paper_slot = record {
  group = codes "file";
  item = codes "paper";
  label = none;
  required = true;
  gates = true;
  formats = [];
}

slot_is_there : Memᴰ paper_slot (gate_slots flow (codes "review") (some (codes "split")))
unfolding gate_slots lookup text_eq
slot_is_there = Memᴰ.head refl

advance-uploaded_example : has_attachment with_paper (codes "file") (codes "paper") ≡ true
advance-uploaded_example =
    advance-uploaded engine flow 2 with_paper fork_state (request (codes "split") none)
      (codes "review") paper_slot is_split refl slot_is_there refl refl
