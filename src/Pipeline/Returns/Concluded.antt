-- ===== src/Pipeline/Returns/Concluded.antt =====
-- crates/wfe-core/src/v22/pipeline.rs (`Engine::fire_call_return`): what a return commits, and from
-- where.
use agnoflow_engine.Prelude.{
  ◌≡◌, false, none, some, unwrap_or, inl, inr, Option-cases, Text, lookup, ok, >>=-eq-ok,
}
use agnoflow_engine.Types.Json.{Json}
use agnoflow_engine.Types.Actor.{Instant, Actor}
use agnoflow_engine.Types.Wfah.{extended}
use agnoflow_engine.Types.Wfd.{CallRef, NodeDef, Wft, Wfd, call_wft}
use agnoflow_engine.Types.Wfes.{Wfes}
use agnoflow_engine.Types.Commit.{TransitionCommit}
use agnoflow_engine.Pipeline.Rows.{system_actor_anchored}
use agnoflow_engine.Pipeline.Route.{WftMode, Routed, resolve_wft}
use agnoflow_engine.Pipeline.Input.{guard_written_ctx}
use agnoflow_engine.Pipeline.Candidates.{candidates_at}
use agnoflow_engine.Pipeline.Calls.{stage_calls, stage_claim_recheck}
use agnoflow_engine.Pipeline.Seat.{Engine}
use agnoflow_engine.Pipeline.Raised.{raise->>=}
use agnoflow_engine.Pipeline.Returns.{
  Return, situation, rows, all_rows, write, node_here, call_here, route_here, conclude_return,
  fire_call_return,
}

module _ (engine : Engine) (wfd : Wfd) (wfes : Wfes) (r : Return) (now : Instant) where
  open engine use {host, org, env, max_instant}

  -- The instance stands at a node with a call; the call's route is taken outside of the parallel mode.
  pub record Returns (commit : TransitionCommit) : Type 0 where
    pub node : Text
    pub def : NodeDef
    pub call : CallRef
    pub wft : Wft
    pub staged : Json
    pub routed : Routed
    pub stands : wfes.current_node ≡ some node
    pub has_node : lookup node wfd.nodes ≡ some def
    pub has_route : call_wft def ≡ some wft
    pub resolved :
        resolve_wft host (situation engine wfd wfes r now) wft staged WftMode.single false
        ≡ ok routed
    pub outcome_is : commit.outcome ≡ routed.0
    pub rows_are : commit.wfah_entries ≡ all_rows engine wfd wfes r now call routed.0

  node_here_sound :
      {node : Text} → node_here engine wfd wfes r now ≡ ok node → wfes.current_node ≡ some node
  node_here_sound h = elim (Option-cases wfes.current_node) [
    | inl e ↦ absurd (let h' = rw e at h in cc)
    | inr (n, e) ↦ let h' = rw e at h in cc
  ]

  call_here_sound :
      (node : Text) {c : CallRef}
      → call_here engine wfd wfes r now node ≡ ok c
      → (def : NodeDef) × (lookup node wfd.nodes ≡ some def) × (def.call ≡ some c)
  call_here_sound node h = elim (Option-cases (lookup node wfd.nodes)) [
    | inl e ↦ absurd (let h' = rw (e, call_here) at h in cc)
    | inr (def, e) ↦ elim (Option-cases def.call) [
      | inl q ↦ absurd (let h' = rw (e, q, call_here) at h in cc)
      | inr (d, q) ↦ let h' = rw (e, q, call_here) at h in (def, e, cc)
    ]
  ]

  route_here_sound :
      (node : Text) (c : CallRef) {wft : Wft}
      → route_here engine wfd wfes r now node c ≡ ok wft
      → c.wft ≡ some wft
  route_here_sound node c h = elim (Option-cases c.wft) [
    | inl e ↦ absurd (let h' = rw e at h in cc)
    | inr (w, e) ↦ let h' = rw e at h in cc
  ]

  conclude_return_sound :
      (c : CallRef) (routed : Routed) {commit : TransitionCommit}
      → conclude_return engine wfd wfes r now c routed ≡ ok commit
      → (commit.outcome ≡ routed.0)
        × (commit.wfah_entries ≡ all_rows engine wfd wfes r now c routed.0)
  unfolding conclude_return
  conclude_return_sound c (outcome, final_ctx, landed) h =
      let (_, _, h1) =
        raise->>=
          (candidates_at host org final_ctx (extended wfes.wfah (rows engine wfd wfes r now c))
            (unwrap_or wfes.origin_orgu_id (Actor.orgu_id (system_actor_anchored wfes)))
            wfes.orgtnt_id outcome landed wfd)
          _ h in
      let (_, _, h2) =
        >>=-eq-ok
          (stage_calls host max_instant env.public wfd final_ctx wfes.wfah
            (system_actor_anchored wfes) wfes.wfe_id now landed)
          _ h1 in
      let (_, _, h3) = raise->>= (guard_written_ctx host wfd wfes.dynctx final_ctx) _ h2 in
      let (_, _, h4) =
        raise->>=
          (stage_claim_recheck host org now wfd wfes outcome
            (all_rows engine wfd wfes r now c outcome) final_ctx none)
          _ h3 in
      (cc, cc)

  -- A call's return that is carried out comes back to an instance that stands at a node with a call,
  -- and moves it along the call's own route.
  pub fire_call_return_sound :
      {commit : TransitionCommit}
      → fire_call_return engine wfd wfes r now ≡ ok commit
      → Returns commit
  unfolding fire_call_return
  fire_call_return_sound h =
      let (node, n, h1) = raise->>= (node_here engine wfd wfes r now) _ h in
      let (c, k, h2) = raise->>= (call_here engine wfd wfes r now node) _ h1 in
      let (staged, _, h3) =
        raise->>= (write engine wfd wfes r now (CallRef.wfes_effects c) node) _ h2 in
      let (wft, w, h4) = raise->>= (route_here engine wfd wfes r now node c) _ h3 in
      let (routed, q, h5) =
        raise->>=
          (resolve_wft host (situation engine wfd wfes r now) wft staged WftMode.single false) _
          h4 in
      let (def, has, is) = call_here_sound node k in
      let (o, rows') = conclude_return_sound c routed h5 in
      record {
        node = node;
        def = def;
        call = c;
        wft = wft;
        staged = staged;
        routed = routed;
        stands = node_here_sound n;
        has_node = has;
        has_route = rw is (route_here_sound node c w);
        resolved = q;
        outcome_is = o;
        rows_are = rows';
      }
