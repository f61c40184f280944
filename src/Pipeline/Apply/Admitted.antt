-- ===== src/Pipeline/Apply/Admitted.antt =====
-- crates/wfe-core/src/v22/pipeline.rs (`Engine::apply`): the steps that an action has gone through
-- when it has been taken.
use agnoflow_engine.Prelude.{◌≡◌, true, Option, none, some, inl, inr, Bool-cases, ok, >>=-eq-ok}
use agnoflow_engine.Types.Json.{Json}
use agnoflow_engine.Types.Actor.{Instant}
use agnoflow_engine.Types.Wfd.{CandidateActor, Wft, ActionDef, Wfd}
use agnoflow_engine.Types.Wfes.{Wfes}
use agnoflow_engine.Types.Commit.{TransitionCommit}
use agnoflow_engine.Access.Matcher.{authorize_anchored}
use agnoflow_engine.Pipeline.Routing.{visited_nodes, select_wft}
use agnoflow_engine.Pipeline.Route.{Routed, resolve_wft}
use agnoflow_engine.Pipeline.Input.{validate_action_input}
use agnoflow_engine.Pipeline.Triggers.{Staging, run_triggers}
use agnoflow_engine.Pipeline.Seat.{Engine, Request, Seat, Done, seat_of}
use agnoflow_engine.Pipeline.Raised.{raise->>=}
use agnoflow_engine.Pipeline.Seat.Gate.{Open, Seated, seat_of_sound}
use agnoflow_engine.Pipeline.Apply.{
  is_send_back, wft_mode, match_env, check_extra, write, scope, situation, opened, carry_out, apply,
}
use agnoflow_engine.Pipeline.Apply.Concluded.{Concludes, conclude_sound}

module _ (engine : Engine) (wfd : Wfd) (now : Instant) (wfes : Wfes) (req : Request) where
  open engine use {host, org, exec, env}

  -- The narrowing rule of the action, where it has one, admits the actor from the instance's unit.
  abbrev pub Narrowed : Option CandidateActor → Type 0
  Narrowed none = Unit
  Narrowed (some rule) =
      authorize_anchored host org rule req.actor wfes.origin_orgu_id
        (match_env engine wfd now wfes req)
      ≡ ok true

  check_extra_sound :
      (extra : Option CandidateActor) (d : Done)
      → check_extra engine wfd now wfes req extra ≡ ok d
      → Narrowed extra
  unfolding check_extra
  check_extra_sound none d h = tt
  check_extra_sound (some r) d h =
      let (b, a, k) =
        >>=-eq-ok
          (authorize_anchored host org r req.actor wfes.origin_orgu_id
            (match_env engine wfd now wfes req))
          _ h in
      elim (Bool-cases b) [ inl t ↦ rw t at a | inr f ↦ absurd (let k' = rw f at k in cc) ]

  -- the record of a transition that has been carried out
  pub record Carried (seat : Seat) (commit : TransitionCommit) : Type 0 where
    pub wft : Wft
    pub context : Json
    pub staging : Staging
    pub routed : Routed
    pub narrowed : Narrowed (ActionDef.extra_c_a seat.transition)
    pub accepted : validate_action_input host seat.transition req.input wfd.context ≡ ok tt
    pub selected :
        select_wft (ActionDef.wft seat.transition) req.target (visited_nodes wfd wfes) ≡ ok wft
    pub written :
        write engine wfd now wfes req (ActionDef.wfes_effects seat.transition) seat.node
        ≡ ok context
    pub triggered :
        run_triggers host exec env
          (scope engine wfd now wfes req seat)
          (ActionDef.trigger seat.transition)
          (opened engine wfd now wfes req context)
        ≡ ok staging
    pub resolved :
        resolve_wft host
          (situation engine wfd now wfes req)
          wft
          (Staging.context staging)
          (wft_mode wfes seat.branch)
          (is_send_back (ActionDef.wft seat.transition))
        ≡ ok routed
    pub concluded : Concludes engine wfd now wfes req seat staging routed commit

  carry_out_sound :
      (seat : Seat) {commit : TransitionCommit}
      → carry_out engine wfd now wfes req seat ≡ ok commit
      → Carried seat commit
  unfolding carry_out
  carry_out_sound seat h =
      let (d, x, h1) =
        raise->>= (check_extra engine wfd now wfes req (ActionDef.extra_c_a seat.transition)) _ h in
      let (_, i, h2) =
        raise->>= (validate_action_input host seat.transition req.input wfd.context) _ h1 in
      let (wft, s, h3) =
        raise->>= (select_wft (ActionDef.wft seat.transition) req.target (visited_nodes wfd wfes)) _
          h2 in
      let (context, w, h4) =
        raise->>= (write engine wfd now wfes req (ActionDef.wfes_effects seat.transition) seat.node)
          _ h3 in
      let (staging, t, h5) =
        raise->>=
          (run_triggers host exec env (scope engine wfd now wfes req seat)
            (ActionDef.trigger seat.transition) (opened engine wfd now wfes req context))
          _ h4 in
      let (routed, r, h6) =
        raise->>=
          (resolve_wft host (situation engine wfd now wfes req) wft (Staging.context staging)
            (wft_mode wfes seat.branch) (is_send_back (ActionDef.wft seat.transition)))
          _ h5 in
      record {
        wft = wft;
        context = context;
        staging = staging;
        routed = routed;
        narrowed = check_extra_sound (ActionDef.extra_c_a seat.transition) d x;
        accepted = i;
        selected = s;
        written = w;
        triggered = t;
        resolved = r;
        concluded = conclude_sound engine wfd now wfes req seat staging routed h6;
      }

  abbrev pub Applied : TransitionCommit → Type 0
  Applied commit =
      (seat : Seat) × Open engine wfd now wfes req
      × Seated engine wfd now wfes req seat
      × Carried seat commit

  -- An action that is taken is taken on an open instance, from a seat that its actor holds and where
  -- the action is enabled; the rule that narrows the action admits the actor, the input fits the
  -- action's contract and the route is one that the client may select. Committed are the outcome and
  -- the context that the effects, the triggers and that route make of the instance, the rows of the
  -- action, its triggers and the parallel mode, and the candidates, calls and recheck of the claim
  -- that follow from them.
  pub apply_sound :
      {commit : TransitionCommit} → apply engine wfd now wfes req ≡ ok commit → Applied commit
  unfolding apply
  apply_sound h =
      let (seat, s, k) = raise->>= (seat_of engine wfd now wfes req) _ h in
      let (o, g) = seat_of_sound engine wfd now wfes req s in (seat, o, g, carry_out_sound seat k)
