-- ===== src/Sim/Shape.antt =====
-- crates/wfe/src/sim.rs: the shapes that an instance may have, and that each outcome leads from one
-- to another.
use agnoflow_engine.Prelude.{
  ℕ, ◌+◌, ◌-◌, ◌≤◌, ◌≡◌, refl, subst, Bool, true, false, Option, none, some, List, [], ◌∷◌, filter,
  length, map, is_some, arith, Text,
}
use agnoflow_engine.Types.Json.{Json}
use agnoflow_engine.Types.Actor.{Uuid, Instant}
use agnoflow_engine.Types.Wfd.{WftTarget, JoinRule, Wft}
use agnoflow_engine.Types.Wfes.{WfeStatus, is_active, BranchState, branch_is_active}
use agnoflow_engine.Types.Commit.{NewWfe, TransitionCommit}
use agnoflow_engine.Outcome.{CommitOutcome, resolution, fork_to, join_complete}
use agnoflow_engine.Types.Host.{Host}
use agnoflow_engine.Pipeline.Route.{single, branch, BranchMode, Situation}
use agnoflow_engine.Pipeline.Route.Targets.{Landing, at_node, at_terminal, Lands-Landing}
use agnoflow_engine.Pipeline.Route.Branches.{
  Routes, lands, forks, ends, fills, waits, unfilled, moves, sends_back, collapses,
  collapses_at_end,
}
use agnoflow_engine.Sim.{
  SimState, owned_branches, change_branch, forked_branch, moved_branch, arrived_branch,
  apply_branch_outcome, apply_commit, from_new_wfe,
}

abbrev pub active_count : List BranchState → ℕ
active_count bs = length (filter (λ b. branch_is_active (BranchState.status b)) bs)

-- An instance stands at one node, or is forked into branches of which one is active, or has ended.
pub data Shape (s : SimState) : Type 0 where
  alone :
      {n : Text}
      → s.status ≡ WfeStatus.active
      → s.current_node ≡ some n
      → s.join_target ≡ none
      → s.branches ≡ []
      → Shape s
  forked :
      s.status ≡ WfeStatus.active
      → s.current_node ≡ none
      → is_some s.join_target ≡ true
      → 1 ≤ active_count s.branches
      → Shape s
  ended :
      is_active s.status ≡ false
      → s.current_node ≡ none
      → s.join_target ≡ none
      → s.branches ≡ []
      → is_some s.end_response ≡ true
      → Shape s

pub active_count-moved :
    (from to : Text) (now : Instant) (bs : List BranchState)
    → active_count (change_branch from (moved_branch to now) bs) ≡ active_count bs
unfolding change_branch
active_count-moved from to now [] = refl
active_count-moved from to now (b ∷ bs) = ground (arith, active_count-moved from to now bs)

active_count-arrived :
    (from : Text) (bs : List BranchState)
    → active_count bs ≤ 1 + active_count (change_branch from arrived_branch bs)
unfolding change_branch
active_count-arrived from [] = omega arith
active_count-arrived from (b ∷ bs) = ground (arith, active_count-arrived from bs)

pub active_count-owned :
    (user : Option Uuid) (bs : List BranchState)
    → active_count (owned_branches user bs) ≡ active_count bs
active_count-owned none bs = refl
active_count-owned (some user) [] = refl
active_count-owned (some user) (b ∷ bs) = ground (arith, active_count-owned (some user) bs)

pub active_count-forked :
    (now : Instant) (ns : List Text) → active_count (map (forked_branch now) ns) ≡ length ns
active_count-forked now [] = refl
active_count-forked now (n ∷ ns) = omega (arith, active_count-forked now ns)

-- a route that forks has a branch to fork into
abbrev pub ForksSome : Wft → Type 0
ForksSome (Wft.parallel p) = 1 ≤ length p.branches
ForksSome _ = Unit

-- an instance that has just been started
pub Shape-new :
    (new : NewWfe) {o : CommitOutcome} → Landing o → new.outcome ≡ o → Shape (from_new_wfe new)
unfolding from_new_wfe resolution
Shape-new new (at_node {n}) e = alone {n = n} (rw e refl) (rw e refl) refl refl
Shape-new new (at_terminal {r}) e = ended (rw e refl) (rw e refl) refl refl (rw e refl)

map-nil : (bs : List BranchState) → map BranchState.branch_node bs ≡ [] → length bs ≡ 0
map-nil [] h = refl
map-nil (b ∷ bs) h = cc

module _ (s : SimState) (commit : TransitionCommit) (now : Instant) where
  abbrev pub After : Type 0
  After = Shape (apply_commit s commit now)

  pub Shape-land :
      {o : CommitOutcome}
      → Landing o
      → commit.outcome ≡ o
      → s.join_target ≡ none
      → s.branches ≡ []
      → After
  unfolding apply_commit apply_branch_outcome resolution
  Shape-land (at_node {n}) e j b = alone {n = n} (rw e refl) (rw e refl) (rw e j) (rw e b)
  Shape-land (at_terminal {r}) e j b =
      ended (rw e refl) (rw e refl) (rw e refl) (rw e refl) (rw e refl)

  Shape-join :
      {o : CommitOutcome} {from : Text} {quorum : Bool} {arrived : List Text}
      → Landing o
      → commit.outcome ≡ join_complete from quorum arrived o
      → After
  unfolding apply_commit apply_branch_outcome resolution
  Shape-join (at_node {n}) e = alone {n = n} (rw e refl) (rw e refl) (rw e refl) (rw e refl)
  Shape-join (at_terminal {r}) e = ended (rw e refl) (rw e refl) (rw e refl) (rw e refl) (rw e refl)

  pub Shape-fork :
      {ns : List Text} {join : WftTarget} {rule : JoinRule}
      → 1 ≤ length ns
      → commit.outcome ≡ fork_to ns join rule
      → After
  unfolding apply_commit apply_branch_outcome resolution
  Shape-fork {ns} some_branch e =
      forked (rw e refl) (rw e refl) (rw e refl) (rw (e, active_count-forked now ns) some_branch)

  pub Shape-single :
      {host : Host} {at : Situation} {wft : Wft} {sb : Bool} {ctx : Json} {o : CommitOutcome}
      → Routes host at wft single sb ctx o
      → commit.outcome ≡ o
      → ForksSome wft
      → s.join_target ≡ none
      → s.branches ≡ []
      → After
  Shape-single {host} {at} {ctx} (lands _ l) e f j b =
      Shape-land (Lands-Landing host at ctx l) e j b
  Shape-single (forks p q) e f j b = Shape-fork (subst ForksSome q f) e

  -- the mode of the branch that acts, as the instance has it
  abbrev pub Among : BranchMode → Type 0
  Among m = m.others_active ≡ active_count s.branches - 1

  pub Shape-branch :
      {host : Host} {at : Situation} {wft : Wft} {m : BranchMode} {sb : Bool} {ctx : Json}
      {o : CommitOutcome}
      → Routes host at wft (branch m) sb ctx o
      → commit.outcome ≡ o
      → Among m
      → is_some s.join_target ≡ true
      → 1 ≤ active_count s.branches
      → After
  unfolding apply_commit apply_branch_outcome resolution
  Shape-branch (ends _ _ _) e am j c =
      ended (rw e refl) (rw e refl) (rw e refl) (rw e refl) (rw e refl)
  Shape-branch {host} {at} {ctx} (fills _ _ l) e am j c = Shape-join (Lands-Landing host at ctx l) e
  Shape-branch {m = m} (waits _ _ others) e am j c =
      forked (rw e refl) (rw e refl) (rw e j)
        (rw e (omega (arith, am, active_count-arrived m.from_node s.branches)))
  Shape-branch (unfilled _ _ _) e am j c =
      ended (rw e refl) (rw e refl) (rw e refl) (rw e refl) (rw e refl)
  Shape-branch {m = m} (moves {n = n} _ _ _) e am j c =
      forked (rw e refl) (rw e refl) (rw e j)
        (rw (e, active_count-moved m.from_node n now s.branches) c)
  Shape-branch (sends_back {n = n} _ _ _) e am j c =
      alone {n = n} (rw e refl) (rw e refl) (rw e refl) (rw e refl)
  Shape-branch (collapses_at_end _ _) e am j c =
      ended (rw e refl) (rw e refl) (rw e refl) (rw e refl) (rw e refl)
  Shape-branch (collapses {n = n} _) e am j c =
      alone {n = n} (rw e refl) (rw e refl) (rw e refl) (rw e refl)
