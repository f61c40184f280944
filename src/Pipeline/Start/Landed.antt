-- ===== src/Pipeline/Start/Landed.antt =====
-- crates/wfe-core/src/v22/pipeline.rs (`Engine::start`): who may start an instance, and where it lands.
use agnoflow_engine.Prelude.{
  ◌≡◌, refl, Bool, true, false, Option, some, List, [], ◌∷◌, Memᴰ, inl, inr, Bool-cases,
  Option-cases, lookup, ok, >>=-eq-ok,
}
use agnoflow_engine.Types.Json.{Json, obj}
use agnoflow_engine.Types.Actor.{Instant, Actor}
use agnoflow_engine.Types.Wfd.{Wft, ActionDef, NodeDef, StartRule, Wfd}
use agnoflow_engine.Types.Commit.{NewWfe}
use agnoflow_engine.Types.Host.{Host}
use agnoflow_engine.Outcome.{CommitOutcome}
use agnoflow_engine.Access.Matcher.{authorize}
use agnoflow_engine.Pipeline.Route.{WftMode, Situation, Routed, resolve_wft}
use agnoflow_engine.Pipeline.Route.Targets.{Landing, Lands-Landing}
use agnoflow_engine.Pipeline.Route.Branches.{Routes, starts, resolve_wft_sound}
use agnoflow_engine.Pipeline.Input.{validate_action_input, guard_written_ctx}
use agnoflow_engine.Pipeline.Triggers.{Staging, run_triggers}
use agnoflow_engine.Pipeline.Candidates.{candidates_at}
use agnoflow_engine.Pipeline.Calls.{stage_calls}
use agnoflow_engine.Pipeline.Seat.{Engine}
use agnoflow_engine.Pipeline.Raised.{raise->>=}
use agnoflow_engine.Pipeline.Start.{
  StartRequest, asked_for, input_object, match_env, extra_admits, guard_holds, eligible, tried,
  select_start, resolved_deadline, seeded, scope, situation, rows_of, new_wfe, start_by, start,
}

from_start :
    {host : Host} {at : Situation} {wft : Wft} {sb : Bool} {ctx : Json} {o : CommitOutcome}
    → Routes host at wft WftMode.start sb ctx o
    → Landing o
from_start {host} {at} {ctx} (starts _ l) = Lands-Landing host at ctx l

module _ (engine : Engine) (wfd : Wfd) (now : Instant) (req : StartRequest) (input : Json) where
  open engine use {host, org, exec, env, max_instant}

  -- The actor is in the pool of the node that the rule's action is taken from, and is not narrowed
  -- away; the input fits the action's contract, and its guard holds.
  pub record Eligible (a : ActionDef) : Type 0 where
    pub node : NodeDef
    pub has_node : lookup a.from wfd.nodes ≡ some node
    pub pooled :
        authorize host org (NodeDef.c_a node) req.actor (match_env engine wfd now req input)
        ≡ ok true
    pub narrowed : extra_admits engine wfd now req input a.extra_c_a ≡ ok true
    pub accepted : validate_action_input host a input wfd.context ≡ ok tt
    pub guarded : guard_holds engine wfd now req input a.when ≡ ok true

  eligible_sound :
      (r : StartRule) (a : ActionDef) → eligible engine wfd now req input r a ≡ ok true → Eligible a
  unfolding eligible
  eligible_sound r a h = elim (Option-cases (lookup a.from wfd.nodes)) [
    | inl e ↦ absurd (let h' = rw (e, eligible) at h in cc)
    | inr (n, e) ↦
        let (may, m, h1) =
          >>=-eq-ok
            (authorize host org (NodeDef.c_a n) req.actor (match_env engine wfd now req input)) _
            (rw (e, eligible) at h) in
        elim (Bool-cases may) [
          | inr f ↦ absurd (let h' = rw f at h1 in cc)
          | inl t ↦
              let (extra, x, h2) =
                >>=-eq-ok (extra_admits engine wfd now req input a.extra_c_a) _ (rw t at h1) in
              elim (Bool-cases extra) [
                | inr f ↦ absurd (let h' = rw f at h2 in cc)
                | inl u ↦
                    let (_, v, h3) =
                      >>=-eq-ok (validate_action_input host a input wfd.context) _ (rw u at h2) in
                    record {
                      node = n;
                      has_node = e;
                      pooled = rw t at m;
                      narrowed = rw u at x;
                      accepted = v;
                      guarded = h3;
                    }
              ]
        ]
  ]

  -- A rule of the document that was asked for, and whose action the actor may start with.
  abbrev pub Chosen : List StartRule → StartRule × ActionDef → Type 0
  Chosen rules (r, a) =
      Memᴰ r rules
      × (asked_for req.action r ≡ true)
      × (lookup r.action wfd.actions ≡ some a)
      × Eligible a

  tried_sound :
      (r : StartRule) {a : ActionDef}
      → tried engine wfd now req input r ≡ ok (some a)
      → (asked_for req.action r ≡ true) × (lookup r.action wfd.actions ≡ some a) × Eligible a
  tried_sound r {a} h = elim (Bool-cases (asked_for req.action r)) [
    | inr f ↦ absurd (let h' = rw f at h in cc)
    | inl t ↦ elim (Option-cases (lookup r.action wfd.actions)) [
      | inl e ↦ absurd (let h' = rw (t, e) at h in cc)
      | inr (b, e) ↦
          let (holds, k, h1) =
            >>=-eq-ok (eligible engine wfd now req input r b) _ (rw (t, e) at h) in
          elim (Bool-cases holds) [
            | inr f ↦ absurd (let h' = rw f at h1 in cc)
            | inl u ↦
                let h2 = rw u at h1 in
                let q : b ≡ a = cc in rw (← q) (t, e, eligible_sound r b (rw u at k))
          ]
    ]
  ]

  select_start_sound :
      (rules : List StartRule) {c : StartRule × ActionDef}
      → select_start engine wfd now req input rules ≡ ok c
      → Chosen rules c
  unfolding select_start
  select_start_sound [] h = absurd (cc)
  select_start_sound (r ∷ rs) {c} h =
      let (m, t, h1) = >>=-eq-ok (tried engine wfd now req input r) _ h in
      elim (Option-cases m) [
        | inl e ↦
            let (i, t2, l2, el) = select_start_sound rs (rw e at h1) in (Memᴰ.tail i, t2, l2, el)
        | inr (a, e) ↦
            let h2 = rw e at h1 in
            let q : (r, a) ≡ c = cc in
            let (w, l, el) = tried_sound r (rw e at t) in rw (← q) (Memᴰ.head refl, w, l, el)
      ]

  pub record Opened (r : StartRule) (new : NewWfe) : Type 0 where
    pub lands : Landing new.outcome
    pub due : resolved_deadline engine wfd now req input ≡ ok new.deadline

  new_wfe_sound :
      (r : StartRule) (deadline : Option Instant) (s : Staging) (routed : Routed) {new : NewWfe}
      → new_wfe engine wfd now req input r deadline s routed ≡ ok new
      → (new.outcome ≡ routed.0) × (new.deadline ≡ deadline)
  unfolding new_wfe
  new_wfe_sound r deadline s (outcome, final_ctx, landed) h =
      let (_, _, h1) =
        raise->>=
          (candidates_at host org final_ctx (rows_of engine wfd now req input r s outcome)
            (Actor.orgu_id req.actor) req.orgtnt_id outcome landed wfd)
          _ h in
      let (_, _, h2) =
        >>=-eq-ok
          (stage_calls host max_instant env.public wfd final_ctx [] req.actor req.wfe_id now landed)
          _ h1 in
      let (_, _, h3) = raise->>= (guard_written_ctx host wfd (obj []) final_ctx) _ h2 in (cc, cc)

  start_by_sound :
      (r : StartRule) (a : ActionDef) {new : NewWfe}
      → start_by engine wfd now req input (r, a) ≡ ok new
      → Opened r new
  unfolding start_by
  start_by_sound r a h =
      let (deadline, d, h1) = >>=-eq-ok (resolved_deadline engine wfd now req input) _ h in
      let (context, _, h2) = raise->>= (seeded engine wfd now req input a.wfes_effects) _ h1 in
      let (s, _, h3) =
        raise->>=
          (run_triggers host exec env (scope engine wfd now req input) a.trigger
            (record { context = context; rows = []; seq = 2 }))
          _ h2 in
      let (routed, q, h4) =
        raise->>=
          (resolve_wft host (situation engine wfd now req input) a.wft (Staging.context s)
            WftMode.start false)
          _ h3 in
      let (o, t) = new_wfe_sound r deadline s routed h4 in
      record {
        lands = rw o (
            from_start (
              resolve_wft_sound host (situation engine wfd now req input) a.wft (Staging.context s)
                WftMode.start false q));
        due = rw t d;
      }

module _ (engine : Engine) (wfd : Wfd) (now : Instant) where
  abbrev pub Started : StartRequest → NewWfe → Type 0
  Started req new =
      (input : Json) × (input_object req.input ≡ ok input)
      × (c : StartRule × ActionDef) × Chosen engine wfd now req input wfd.start c
      × Opened engine wfd now req input c.0 new

  -- An instance is started by a rule of the document that was asked for and whose action its actor
  -- may take: the actor is in the pool of the node that the action starts from and is not narrowed
  -- away, the input is an object that fits the action's contract, and the guard holds. It lands at a
  -- node or a terminal, never in a fork, under the deadline of the request or else of the document.
  pub start_sound :
      (req : StartRequest) {new : NewWfe} → start engine wfd now req ≡ ok new → Started req new
  unfolding start
  start_sound req h =
      let (input, i, h1) = raise->>= (input_object req.input) _ h in
      let (c, s, h2) = raise->>= (select_start engine wfd now req input wfd.start) _ h1 in
      (
        input,
        i,
        c,
        select_start_sound engine wfd now req input wfd.start s,
        start_by_sound engine wfd now req input c.0 c.1 h2,
      )
