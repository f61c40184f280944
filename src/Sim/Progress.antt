-- ===== src/Sim/Progress.antt =====
-- crates/wfe/src/sim.rs and v22/pipeline.rs: what an action, or the return of a call, that the engine
-- takes says of the simulated instance before it.
use agnoflow_engine.Prelude.{
  ◌≤◌, ◌&&◌, any, Memᴰ, text_eq, text_eq_refl, ◌≡◌, refl, Bool, true, false, Option, none, some,
  List, [], ◌∷◌, All, All-mem, lookup, lookup-mem, Bool-cases, Option-cases, inl, inr, arith, Text,
}
use agnoflow_engine.Types.Json.{Json}
use agnoflow_engine.Types.Actor.{Uuid, Instant}
use agnoflow_engine.Types.Wfd.{WftTarget, Wft, ActionDef, NodeDef, Wfd, call_wft}
use agnoflow_engine.Types.Wfes.{BranchState, branch_is_active, Wfes}
use agnoflow_engine.Types.Commit.{TransitionCommit}
use agnoflow_engine.Pipeline.Routing.Menu.{Selects, from_menu, no_menu, select_wft_sound}
use agnoflow_engine.Pipeline.Routing.{visited_nodes}
use agnoflow_engine.Types.Host.{Host}
use agnoflow_engine.Outcome.{CommitOutcome}
use agnoflow_engine.Pipeline.Route.{BranchMode, Situation, single, branch}
use agnoflow_engine.Pipeline.Route.Branches.{Routes, resolve_wft_sound}
use agnoflow_engine.Pipeline.Triggers.{Staging}
use agnoflow_engine.Pipeline.Seat.{Engine, Request, Seat, seat_at, active_branches}
use agnoflow_engine.Pipeline.Seat.Gate.{Seated}
use agnoflow_engine.Pipeline.Apply.{situation, wft_mode, mode_of, is_send_back}
use agnoflow_engine.Pipeline.Apply.Admitted.{Carried}
use agnoflow_engine.Pipeline.Returns.{Return}
use agnoflow_engine.Pipeline.Returns.Concluded.{Returns}
use agnoflow_engine.Sim.{SimState, to_wfes, owned_branches, apply_commit}
use agnoflow_engine.Sim.Shape.{
  Shape, ForksSome, Shape-single, active_count, active_count-owned, Among, Shape-branch,
}

ForksSome-selected :
    {wft route : Wft} {target : Option Text} {visited : List Text}
    → Selects wft target visited route
    → ForksSome wft
    → ForksSome route
ForksSome-selected (from_menu _) f = tt
ForksSome-selected (no_menu _) f = f

abbrev pub ForksIfAny : Option Wft → Type 0
ForksIfAny none = Unit
ForksIfAny (some wft) = ForksSome wft

-- No action of the document, and no return of a call, forks into no branch at all.
abbrev pub FullForks : Wfd → Type 0
FullForks wfd =
    All (λ (kv : Text × ActionDef). ForksSome (ActionDef.wft kv.1)) wfd.actions
    × All (λ (kv : Text × NodeDef). ForksIfAny (call_wft kv.1)) wfd.nodes

-- an active branch stands at the node
abbrev pub Stands : Text → List BranchState → Type 0
Stands node bs =
    any (λ b. branch_is_active (BranchState.status b) && text_eq (BranchState.branch_node b) node)
      bs
    ≡ true

Stands-owned :
    (user : Uuid) (bs : List BranchState) {b : BranchState}
    → Memᴰ b (owned_branches (some user) bs)
    → branch_is_active b.status ≡ true
    → Stands b.branch_node bs
Stands-owned user [] m a = elim m [ ]
Stands-owned user (c ∷ bs) {b} (Memᴰ.head e) a =
    elim (Bool-cases (branch_is_active (BranchState.status c))) [
      | inl t ↦ rw (e, t, text_eq_refl (BranchState.branch_node c)) refl
      | inr f ↦ absurd (let a' = rw (e, f) at a in cc)
    ]
Stands-owned user (c ∷ bs) {b} (Memᴰ.tail m) a = ground (arith, Stands-owned user bs m a)

-- What has made a commit of an instance: a route outside of the parallel mode, or one in a branch that
-- is active.
pub data Took (s : SimState) (commit : TransitionCommit) (now : Instant) : Type 0 where
  singly :
      {host : Host} {at : Situation} {wft : Wft} {sb : Bool} {ctx : Json} {o : CommitOutcome}
      {n : Text}
      → Routes host at wft single sb ctx o
      → commit.outcome ≡ o
      → ForksSome wft
      → s.join_target ≡ none
      → s.branches ≡ []
      → s.current_node ≡ some n
      → Took s commit now
  in_branch :
      {host : Host} {at : Situation} {wft : Wft} {m : BranchMode} {sb : Bool} {ctx : Json}
      {o : CommitOutcome} {join : WftTarget}
      → Routes host at wft (branch m) sb ctx o
      → commit.outcome ≡ o
      → Among s commit now m
      → Stands m.from_node s.branches
      → s.join_target ≡ some join
      → 1 ≤ active_count s.branches
      → Took s commit now

pub Shape-took :
    {s : SimState} {commit : TransitionCommit} {now : Instant}
    → Took s commit now
    → Shape (apply_commit s commit now)
Shape-took {s} {commit} {now} (Took.singly r e f j b _) = Shape-single s commit now r e f j b
Shape-took {s} {commit} {now} (Took.in_branch r e am _ j k) =
    Shape-branch s commit now r e am (rw j refl) k

module _ (engine : Engine) (wfd : Wfd) (now : Instant) (s : SimState) (req : Request)
    (user : Uuid) where
  abbrev seen : Wfes
  seen = to_wfes s (some user) now

  action_forks :
      (name : Text) {a : ActionDef}
      → FullForks wfd
      → lookup name wfd.actions ≡ some a
      → ForksSome a.wft
  action_forks name full e =
      All-mem (λ (kv : Text × ActionDef). ForksSome (ActionDef.wft kv.1)) wfd.actions full.0
        (lookup-mem name wfd.actions e)

  Took-alone :
      {node : Text} {a : ActionDef} {commit : TransitionCommit}
      → s.join_target ≡ none
      → s.branches ≡ []
      → s.current_node ≡ some node
      → ForksSome a.wft
      → Carried engine wfd now seen req (seat_at node none a) commit
      → Took s commit now
  unfolding to_wfes
  Took-alone {node} {a} j b cur full c =
      let done = c.concluded in
      let full' =
        ForksSome-selected (select_wft_sound a.wft req.target (visited_nodes wfd seen) c.selected)
          full in
      Took.singly
        (resolve_wft_sound engine.host (situation engine wfd now seen req) c.wft
          (Staging.context c.staging) single (is_send_back a.wft) c.resolved)
        done.outcome_is full' j b cur

  Took-at_branch :
      {b : BranchState} {a : ActionDef} {commit : TransitionCommit} (join : WftTarget)
      → s.join_target ≡ some join
      → 1 ≤ active_count s.branches
      → Stands b.branch_node s.branches
      → Carried engine wfd now seen req (seat_at b.branch_node (some b) a) commit
      → Took s commit now
  unfolding to_wfes active_branches
  Took-at_branch {b} {a} join j count st c =
      let done = c.concluded in
      let mode : wft_mode seen (some b) ≡ branch (mode_of seen join b) = rw j refl in
      let route =
        resolve_wft_sound engine.host (situation engine wfd now seen req) c.wft
          (Staging.context c.staging) (wft_mode seen (some b)) (is_send_back a.wft) c.resolved in
      Took.in_branch (rw mode at route) done.outcome_is
        (rw (active_count-owned (some user) s.branches) refl) st j count

  pub Took-seat :
      {seat : Seat} {commit : TransitionCommit}
      → Shape s
      → FullForks wfd
      → Seated engine wfd now seen req seat
      → Carried engine wfd now seen req seat commit
      → Took s commit now
  unfolding to_wfes
  Took-seat (Shape.alone st cur j b) full (Seated.alone _ here _ en) c =
      Took-alone j b here (action_forks req.action full en.0.0) c
  Took-seat (Shape.forked st cur j count) full (Seated.alone nj _ _ en) c = absurd (cc)
  Took-seat (Shape.ended st cur j b r) full (Seated.alone _ at _ en) c = absurd (cc)
  Took-seat (Shape.alone st cur j b) full (Seated.at_branch bj _ _ _ en) c = absurd (ground arith)
  Took-seat (Shape.ended st cur j b r) full (Seated.at_branch bj _ _ _ en) c = absurd (ground arith)
  Took-seat (Shape.forked st cur j count) full (Seated.at_branch bj m act _ en) c =
      elim (Option-cases s.join_target) [
        | inl n ↦ absurd (let j' = rw n at j in cc)
        | inr (join, e) ↦ Took-at_branch join e count (Stands-owned user s.branches m act) c
      ]

module _ (engine : Engine) (wfd : Wfd) (now : Instant) (s : SimState) (r : Return) where
  abbrev waiting : Wfes
  waiting = to_wfes s none now

  call_forks :
      (node : Text) {def : NodeDef} {wft : Wft}
      → FullForks wfd
      → lookup node wfd.nodes ≡ some def
      → call_wft def ≡ some wft
      → ForksSome wft
  call_forks node {def} {wft} full e w =
      let some_forks : ForksIfAny (call_wft def) =
        All-mem (λ (kv : Text × NodeDef). ForksIfAny (call_wft kv.1)) wfd.nodes full.1
          (lookup-mem node wfd.nodes e) in
      rw w at some_forks

  pub Took-return :
      {commit : TransitionCommit}
      → Shape s
      → FullForks wfd
      → Returns engine wfd waiting r now commit
      → Took s commit now
  unfolding to_wfes
  Took-return (Shape.alone st cur j b) full c =
      Took.singly
        (resolve_wft_sound engine.host
          (agnoflow_engine.Pipeline.Returns.situation engine wfd waiting r now) c.wft c.staged
          single false c.resolved)
        c.outcome_is (call_forks c.node full c.has_node c.has_route) j b c.stands
  Took-return (Shape.forked st cur j count) full c = let x = c.stands in absurd (cc)
  Took-return (Shape.ended st cur j b e) full c = let x = c.stands in absurd (cc)
