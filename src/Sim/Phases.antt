-- ===== src/Sim/Phases.antt =====
-- crates/wfe/src/sim.rs and v22/pipeline.rs: an instance as a machine of three kinds of states, that
-- the actions of the engine refine.
use agnoflow_engine.Prelude.{
  ℕ, ◌+◌, ◌≤◌, ◌≡◌, subst, Bool, Option, none, some, List, [], ◌∷◌, arith, Text,
}
use agnoflow_engine.Types.Json.{Json}
use agnoflow_engine.Types.Actor.{Instant}
use agnoflow_engine.Types.Wfd.{WftTarget, Wft}
use agnoflow_engine.Types.Wfes.{BranchState}
use agnoflow_engine.Types.Commit.{TransitionCommit}
use agnoflow_engine.Types.Host.{Host}
use agnoflow_engine.Outcome.{CommitOutcome, resolution}
use agnoflow_engine.Pipeline.Route.{BranchMode, single, branch, Situation}
use agnoflow_engine.Pipeline.Route.Targets.{to_node, to_terminal}
use agnoflow_engine.Pipeline.Route.Branches.{
  Routes, lands, forks, ends, fills, waits, unfilled, moves, sends_back, collapses,
  collapses_at_end,
}
use agnoflow_engine.Sim.{
  SimState, change_branch, arrived_branch, apply_branch_outcome, apply_commit,
}
use agnoflow_engine.Sim.Shape.{
  ForksSome, active_count, active_count-forked, active_count-moved, Among,
}
use agnoflow_engine.Sim.Progress.{Stands, Took}

-- Standing at a node, forked with so many active branches, or over.
pub data Phase : Type 0 where
  stands : Text → Phase
  runs : ℕ → Phase
  over : Phase

abbrev pub phase_at : Option WftTarget → Option Text → ℕ → Phase
phase_at (some join) current k = runs k
phase_at none (some n) k = stands n
phase_at none none k = over

abbrev pub phase : SimState → Phase
phase s = phase_at s.join_target s.current_node (active_count s.branches)

-- The moves of the machine. A fork is opened from a node with a branch at least; inside of it branches
-- only move or arrive, one at a time, and one of them stays; it ends at a node or altogether.
pub data Moves : Phase → Phase → Type 0 where
  goes : {m n : Text} → Moves (stands m) (stands n)
  finishes : {m : Text} → Moves (stands m) over
  opens : {m : Text} {k : ℕ} → 1 ≤ k → Moves (stands m) (runs k)
  works : {k : ℕ} → 1 ≤ k → Moves (runs k) (runs k)
  arrives : {k j : ℕ} → 1 ≤ j → k ≡ j + 1 → Moves (runs k) (runs j)
  joins : {k : ℕ} {n : Text} → Moves (runs k) (stands n)
  stops : {k : ℕ} → Moves (runs k) over

active_count-arrived_one :
    (from : Text) (bs : List BranchState)
    → Stands from bs
    → active_count bs ≡ active_count (change_branch from arrived_branch bs) + 1
unfolding change_branch
active_count-arrived_one from [] h = absurd (cc)
active_count-arrived_one from (b ∷ bs) h = ground (arith, active_count-arrived_one from bs)

module _ (s : SimState) (commit : TransitionCommit) (now : Instant) where
  abbrev Moved : Type 0
  Moved = Moves (phase s) (phase (apply_commit s commit now))

  Moves-single :
      {host : Host} {at : Situation} {wft : Wft} {sb : Bool} {ctx : Json} {o : CommitOutcome}
      {n : Text}
      → Routes host at wft single sb ctx o
      → commit.outcome ≡ o
      → ForksSome wft
      → s.join_target ≡ none
      → s.current_node ≡ some n
      → Moved
  unfolding apply_commit apply_branch_outcome resolution
  Moves-single (lands _ to_node) e f j c = rw (j, c, e) goes
  Moves-single (lands _ (to_terminal _)) e f j c = rw (j, c, e) finishes
  Moves-single (forks p q) e f j c =
      rw (j, c, e, active_count-forked now p.branches) (opens (subst ForksSome q f))

  Moves-branch :
      {host : Host} {at : Situation} {wft : Wft} {m : BranchMode} {sb : Bool} {ctx : Json}
      {o : CommitOutcome} {join : WftTarget}
      → Routes host at wft (branch m) sb ctx o
      → commit.outcome ≡ o
      → Among s commit now m
      → Stands m.from_node s.branches
      → s.join_target ≡ some join
      → 1 ≤ active_count s.branches
      → Moved
  unfolding apply_commit apply_branch_outcome resolution
  Moves-branch (ends _ _ _) e am st j k = rw (j, e) stops
  Moves-branch (fills _ _ to_node) e am st j k = rw (j, e) joins
  Moves-branch (fills _ _ (to_terminal _)) e am st j k = rw (j, e) stops
  Moves-branch {m = m} (waits _ _ others) e am st j k =
      let one = active_count-arrived_one m.from_node s.branches st in
      rw (j, e) (arrives (omega arith) one)
  Moves-branch (unfilled _ _ _) e am st j k = rw (j, e) stops
  Moves-branch {m = m} (moves {n = n} _ _ _) e am st j k =
      rw (j, e, active_count-moved m.from_node n now s.branches) (works k)
  Moves-branch (sends_back _ _ _) e am st j k = rw (j, e) joins
  Moves-branch (collapses _) e am st j k = rw (j, e) joins
  Moves-branch (collapses_at_end _ _) e am st j k = rw (j, e) stops

  -- what an action or a return makes of an instance is a move of the machine
  pub Moves-took : Took s commit now → Moved
  Moves-took (Took.singly r e f j _ c) = Moves-single r e f j c
  Moves-took (Took.in_branch r e am st j k) = Moves-branch r e am st j k
