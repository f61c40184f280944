-- ===== src/Pipeline/Route/Branches.antt =====
-- crates/wfe-core/src/v22/pipeline.rs (`resolve_wft`): the outcomes that a route has, by the mode.
use agnoflow_engine.Prelude.{
  ◌≡◌, ◌≢◌, refl, none, subst, Bool, true, false, ◌⊎◌, some, List, Memᴰ, inl, inr, ◌==◌, ltb,
  Bool-cases, Text, ok, >>=-eq-ok, arith,
}
use agnoflow_engine.Types.Json.{Json}
use agnoflow_engine.Types.Wfd.{WftTarget, ParallelSpec, Wft}
use agnoflow_engine.Types.Host.{Host}
use agnoflow_engine.Types.Commit.{CallSite}
use agnoflow_engine.Outcome.{
  CommitOutcome, CollapseCause, move_to, terminal, failed, fork_to, branch_move_to, branch_arrived,
  join_complete, collapse_to,
}
use agnoflow_engine.Pipeline.Graph.{fork_subgraph}
use agnoflow_engine.Pipeline.Routing.{contains}
use agnoflow_engine.Pipeline.Routing.Menu.{contains-mem, mem-contains}
use agnoflow_engine.Pipeline.Route.{
  WftMode, BranchMode, start, single, branch, Situation, Routed, join_rule, terminal_outcome,
  choose, land, same_target, completes, unsatisfied, wait_at_join, fill_join, arrive, move_branch,
  leave_branch, route_target, collapse_route, fork_route, resolve_wft,
}
use agnoflow_engine.Pipeline.Route.Targets.{
  Targets, that_node, that_terminal, chosen, Lands, to_node, to_terminal, choose_sound, same_sound,
  same_apart,
}

module _ (host : Host) (at : Situation) (wft : Wft) where
  -- the nodes of the fork that the branch is in
  abbrev inside : BranchMode → List Text
  inside m = fork_subgraph at.wfd m.all_entries m.join

  abbrev To : Json → WftTarget → Type 0
  To ctx t = Targets host at ctx wft t

  -- The outcomes that a route may have: in the mode, under a send-back or not, on this context.
  pub data Routes : WftMode → Bool → Json → CommitOutcome → Type 0 where
    starts :
        {sb : Bool} {ctx : Json} {o : CommitOutcome} {t : WftTarget}
        → To ctx t
        → Lands host at ctx t o
        → Routes start sb ctx o
    lands :
        {sb : Bool} {ctx : Json} {o : CommitOutcome} {t : WftTarget}
        → To ctx t
        → Lands host at ctx t o
        → Routes single sb ctx o
    forks :
        {sb : Bool} {ctx : Json} (p : ParallelSpec)
        → wft ≡ Wft.parallel p
        → Routes single sb ctx (fork_to p.branches p.join (join_rule p))
    -- a branch comes to the join
    fills :
        {sb : Bool} {ctx : Json} {m : BranchMode} {o : CommitOutcome}
        → To ctx m.join
        → completes host at m m.rule ctx ≡ ok true
        → Lands host at ctx m.join o
        → Routes
            (branch m)
            sb
            ctx
            (join_complete m.from_node (ltb 0 m.others_active) m.arrived_entries o)
    waits :
        {sb : Bool} {ctx : Json} {m : BranchMode}
        → To ctx m.join
        → completes host at m m.rule ctx ≡ ok false
        → m.others_active ≢ 0
        → Routes (branch m) sb ctx (branch_arrived m.from_node m.arrived_entries)
    unfilled :
        {sb : Bool} {ctx : Json} {m : BranchMode}
        → To ctx m.join
        → completes host at m m.rule ctx ≡ ok false
        → m.others_active ≡ 0
        → Routes (branch m) sb ctx (failed (unsatisfied host at m))
    -- or elsewhere
    ends :
        {sb : Bool} {ctx : Json} {m : BranchMode} {t : Text} {r : Json × Json}
        → To ctx (WftTarget.terminal t)
        → WftTarget.terminal t ≢ m.join
        → terminal_outcome host at t ctx ≡ ok r
        → Routes (branch m) sb ctx (terminal r.0)
    moves :
        {sb : Bool} {ctx : Json} {m : BranchMode} {n : Text}
        → To ctx (WftTarget.node n)
        → WftTarget.node n ≢ m.join
        → (sb ≡ false) ⊎ Memᴰ n (inside m)
        → Routes (branch m) sb ctx (branch_move_to m.from_node n)
    sends_back :
        {ctx : Json} {m : BranchMode} {n : Text}
        → To ctx (WftTarget.node n)
        → WftTarget.node n ≢ m.join
        → ¬ Memᴰ n (inside m)
        → Routes (branch m) true ctx (collapse_to (some m.from_node) n CollapseCause.sent_back)
    -- a route that collapses the fork
    collapses :
        {sb : Bool} {ctx : Json} {m : BranchMode} {n : Text}
        → wft ≡ Wft.collapse (WftTarget.node n)
        → Routes (branch m) sb ctx (collapse_to (some m.from_node) n CollapseCause.collapse)
    collapses_at_end :
        {sb : Bool} {ctx : Json} {m : BranchMode} {t : Text} {r : Json × Json}
        → wft ≡ Wft.collapse (WftTarget.terminal t)
        → terminal_outcome host at t ctx ≡ ok r
        → Routes (branch m) sb ctx (terminal r.0)

  abbrev RoutedAs : WftMode → Bool → Json → Routed → Type 0
  RoutedAs mode sb ctx routed = Routes mode sb ctx routed.0

  land_sound :
      (t : WftTarget) (ctx : Json) {routed : Routed}
      → land host at t ctx ≡ ok routed
      → Lands host at ctx t routed.0
  unfolding land
  land_sound (WftTarget.node n) ctx {routed} h =
      let q : (move_to n, ctx, some (CallSite.node n)) ≡ routed = cc in rw (← q) to_node
  land_sound (WftTarget.terminal t) ctx {routed} h =
      let (r, e, k) = >>=-eq-ok (terminal_outcome host at t ctx) _ h in
      let q : (terminal r.0, r.1, some (CallSite.terminal t)) ≡ routed = cc in
      rw (← q) (to_terminal e)

  wait_sound :
      (m : BranchMode) (sb : Bool) (ctx : Json)
      → To ctx m.join
      → completes host at m m.rule ctx ≡ ok false
      → RoutedAs (branch m) sb ctx (wait_at_join host at m ctx)
  unfolding wait_at_join
  wait_sound m sb ctx to c = elim (Bool-cases (m.others_active == 0)) [
    | inl t ↦ rw (t, wait_at_join) (unfilled to c (ground arith))
    | inr f ↦ rw (f, wait_at_join) (waits to c (ground arith))
  ]

  arrive_sound :
      (m : BranchMode) (sb : Bool) (ctx : Json) {routed : Routed}
      → To ctx m.join
      → arrive host at m ctx ≡ ok routed
      → RoutedAs (branch m) sb ctx routed
  unfolding arrive fill_join
  arrive_sound m sb ctx {routed} to h =
      let (full, c, k) = >>=-eq-ok (completes host at m m.rule ctx) _ h in
      elim (Bool-cases full) [
        | inl t ↦
            let (r, l, k2) = >>=-eq-ok (land host at m.join ctx) _ (rw t at k) in
            let q : (
              join_complete m.from_node (ltb 0 m.others_active) m.arrived_entries r.0,
              r.1,
              r.2,
            )
                ≡ routed =
              cc in
            rw (← q) (fills to (rw t at c) (land_sound m.join ctx l))
        | inr f ↦
            let k2 = rw f at k in
            let q : wait_at_join host at m ctx ≡ routed = cc in
            rw (← q) (wait_sound m sb ctx to (rw f at c))
      ]

  move_sound :
      (m : BranchMode) (sb : Bool) (n : Text) (ctx : Json)
      → To ctx (WftTarget.node n)
      → WftTarget.node n ≢ m.join
      → RoutedAs (branch m) sb ctx (move_branch host at m sb n ctx)
  unfolding move_branch
  move_sound m false n ctx to away = moves to away (inl refl)
  move_sound m true n ctx to away = elim (Bool-cases (contains (inside m) n)) [
    | inl t ↦ rw (t, move_branch) (moves to away (inr (contains-mem (inside m) n t)))
    | inr f ↦
        rw (f, move_branch)
          (sends_back to away
            (λ i. let t = mem-contains (inside m) n i in let x = f in absurd (cc)))
  ]

  leave_sound :
      (m : BranchMode) (sb : Bool) (t : WftTarget) (ctx : Json) {routed : Routed}
      → To ctx t
      → t ≢ m.join
      → leave_branch host at m sb t ctx ≡ ok routed
      → RoutedAs (branch m) sb ctx routed
  unfolding leave_branch land
  leave_sound m sb (WftTarget.node n) ctx {routed} to away h =
      let q : move_branch host at m sb n ctx ≡ routed = cc in
      rw (← q) (move_sound m sb n ctx to away)
  leave_sound m sb (WftTarget.terminal t) ctx {routed} to away h =
      let (r, e, k) = >>=-eq-ok (terminal_outcome host at t ctx) _ h in
      let q : (terminal r.0, r.1, some (CallSite.terminal t)) ≡ routed = cc in
      rw (← q) (ends to away e)

  route_sound :
      (mode : WftMode) (sb : Bool) (t : WftTarget) (ctx : Json) {routed : Routed}
      → To ctx t
      → route_target host at mode sb t ctx ≡ ok routed
      → RoutedAs mode sb ctx routed
  unfolding route_target
  route_sound start sb t ctx to h = starts to (land_sound t ctx h)
  route_sound single sb t ctx to h = lands to (land_sound t ctx h)
  route_sound (branch m) sb t ctx {routed} to h = elim (Bool-cases (same_target host at t m.join)) [
    | inl e ↦
        arrive_sound m sb ctx (subst (To ctx) (same_sound host at ctx t m.join e) to)
          (rw (e, route_target) at h)
    | inr f ↦
        leave_sound m sb t ctx to (same_apart host at ctx t m.join f) (rw (f, route_target) at h)
  ]

  collapse_sound :
      (mode : WftMode) (sb : Bool) (t : WftTarget) (ctx : Json) {routed : Routed}
      → wft ≡ Wft.collapse t
      → collapse_route host at mode t ctx ≡ ok routed
      → RoutedAs mode sb ctx routed
  unfolding collapse_route land
  collapse_sound start sb t ctx is h = absurd (cc)
  collapse_sound single sb t ctx is h = absurd (cc)
  collapse_sound (branch m) sb (WftTarget.node n) ctx {routed} is h =
      let q : (collapse_to (some m.from_node) n CollapseCause.collapse, ctx, some (CallSite.node n))
          ≡ routed =
        cc in
      rw (← q) (collapses is)
  collapse_sound (branch m) sb (WftTarget.terminal t) ctx {routed} is h =
      let (r, e, k) = >>=-eq-ok (terminal_outcome host at t ctx) _ h in
      let q : (terminal r.0, r.1, some (CallSite.terminal t)) ≡ routed = cc in
      rw (← q) (collapses_at_end is e)

  fork_sound :
      (mode : WftMode) (sb : Bool) (p : ParallelSpec) (ctx : Json) {routed : Routed}
      → wft ≡ Wft.parallel p
      → fork_route host at mode p ctx ≡ ok routed
      → RoutedAs mode sb ctx routed
  unfolding fork_route
  fork_sound start sb p ctx e h = absurd (cc)
  fork_sound (branch m) sb p ctx e h = absurd (cc)
  fork_sound single sb p ctx {routed} e h =
      let q : (fork_to p.branches p.join (join_rule p), ctx, none) ≡ routed = cc in
      rw (← q) (forks p e)

module _ (host : Host) (at : Situation) where
  -- What a route makes of an instance fits the mode it is taken in and the target it leads to: the
  -- one it names, or that of its first condition that holds, or else its default. A start lands at the
  -- target, and a transition outside of the parallel mode lands there or forks. A branch whose
  -- target is the join fills it if the rule of the join says so, and otherwise waits there while
  -- another branch is active, and fails the instance when none is. A branch whose target is another
  -- one ends the instance at a terminal, or moves to the node; under a send-back it moves within the
  -- fork only, and a node outside of it ends the fork. A route that collapses ends the fork.
  pub resolve_wft_sound :
      (wft : Wft) (ctx : Json) (mode : WftMode) (sb : Bool) {routed : Routed}
      → resolve_wft host at wft ctx mode sb ≡ ok routed
      → Routes host at wft mode sb ctx routed.0
  unfolding resolve_wft
  resolve_wft_sound (Wft.collapse t) ctx mode sb h =
      collapse_sound host at (Wft.collapse t) mode sb t ctx refl h
  resolve_wft_sound (Wft.parallel p) ctx mode sb h =
      fork_sound host at (Wft.parallel p) mode sb p ctx refl h
  resolve_wft_sound (Wft.node n) ctx mode sb h =
      route_sound host at (Wft.node n) mode sb (WftTarget.node n) ctx that_node h
  resolve_wft_sound (Wft.terminal t) ctx mode sb h =
      route_sound host at (Wft.terminal t) mode sb (WftTarget.terminal t) ctx that_terminal h
  resolve_wft_sound (Wft.send_back ts) ctx mode sb h = absurd (cc)
  resolve_wft_sound (Wft.conditional cs d) ctx mode sb h =
      let (t, c, k) = >>=-eq-ok (choose host at cs d ctx) _ h in
      route_sound host at (Wft.conditional cs d) mode sb t ctx
        (chosen (choose_sound host at ctx cs d c)) k
