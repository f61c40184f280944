-- ===== src/Sim/Gates.antt =====
-- crates/wfe/src/sim.rs (`step::apply`): the gates that a step passes before the engine is asked.
use agnoflow_engine.Prelude.{
  ℕ, ◌≡◌, refl, true, Option, none, some, Memᴰ, is_empty, or_opt, Text, Bool-cases, inl, inr,
  Option-cases, Result, head?, lookup, is_some, >>=-eq-ok, ok, err, ◌>>=◌,
}
use agnoflow_engine.Types.Errors.{Fallible}
use agnoflow_engine.Types.Actor.{Instant, Actor}
use agnoflow_engine.Types.Wfd.{Wfd}
use agnoflow_engine.Attachments.{GateSlot, gate_slots, check_upload, find_item}
use agnoflow_engine.Attachments.Gate.{missing_required-nil}
use agnoflow_engine.Types.Json.{Json}
use agnoflow_engine.Types.Commit.{TransitionCommit}
use agnoflow_engine.Duration.{Failure}
use agnoflow_engine.Pipeline.Returns.{fire_call_return}
use agnoflow_engine.Pipeline.Apply.{apply}
use agnoflow_engine.Pipeline.Seat.{Engine, Request}
use agnoflow_engine.Sim.{
  SimState, SimCall, SimAttachment, to_wfes, apply_commit, awaited_call, clear_awaited_call,
  active_nodes, has_attachment,
}
use agnoflow_engine.Sim.Steps.{
  ApplyError, CallReturnError, lift_apply, lift_return, return_of, call_return, attach, lift_reject,
  size_of, collected_here, store, as_failure, eligible, missing_gate_attachments, carry_on, advance,
}

pub lift_apply->>= :
    {A B : Type 0} (step : Result Failure A) (next : A → Result ApplyError B) {last : B}
    → (lift_apply step >>= next) ≡ ok last
    → (value : A) × (step ≡ ok value) × (next value ≡ ok last)
lift_apply->>= (err e) next h = absurd (cc)
lift_apply->>= (ok value) next h = (value, refl, h)

lift_return->>= :
    {A B : Type 0} (step : Result Failure A) (next : A → Result CallReturnError B) {last : B}
    → (lift_return step >>= next) ≡ ok last
    → (value : A) × (step ≡ ok value) × (next value ≡ ok last)
lift_return->>= (err e) next h = absurd (cc)
lift_return->>= (ok value) next h = (value, refl, h)

as_failure-ok : {A : Type 0} (step : Fallible A) {a : A} → as_failure step ≡ ok a → step ≡ ok a
as_failure-ok (ok b) h = cc
as_failure-ok (err e) h = absurd (cc)

module _ (engine : Engine) (wfd : Wfd) (now : Instant) where
  -- A step is taken only by an actor who may claim the node or owns it, only while no required upload
  -- that closes the action at the node is missing, and leads where the engine leads.
  pub advance_sound :
      (s t : SimState) (req : Request)
      → advance engine wfd now s req ≡ ok t
      → (eligible engine wfd now s req.actor req.node_hint ≡ ok true)
        × (is_empty (missing_gate_attachments wfd s req.action req.node_hint) ≡ true)
        × (carry_on engine wfd now s req ≡ ok t)
  unfolding advance
  advance_sound s t req h =
      let (may, e, k) =
        lift_apply->>= (as_failure (eligible engine wfd now s req.actor req.node_hint)) _ h in
      elim (Bool-cases may) [
        | inr f ↦ absurd (let k' = rw f at k in cc)
        | inl u ↦
            elim (Bool-cases (is_empty (missing_gate_attachments wfd s req.action req.node_hint))) [
              | inr m ↦ absurd (let k' = rw (u, m) at k in cc)
              | inl m ↦ (as_failure-ok _ (rw u at e), m, rw (u, m) at k)
            ]
      ]

  -- the engine's commit, applied
  pub carry_on_sound :
      (s : SimState) (req : Request) {t : SimState}
      → carry_on engine wfd now s req ≡ ok t
      → (commit : TransitionCommit) × (apply engine wfd now
            (to_wfes s (some (Actor.user_id req.actor)) now)
            req
          ≡ ok commit)
        × (apply_commit s commit now ≡ t)
  unfolding carry_on
  carry_on_sound s req h =
      let (commit, a, k) =
        lift_apply->>= (apply engine wfd now (to_wfes s (some (Actor.user_id req.actor)) now) req) _
          h in
      (commit, a, cc)

  pub call_return_sound :
      (s : SimState) (status : Text) (result : Option Json) {t : SimState}
      → call_return engine wfd now s status result ≡ ok t
      → (call : SimCall) × (commit : TransitionCommit) × (fire_call_return engine wfd
            (to_wfes s none now)
            (return_of engine wfd now status result)
            now
          ≡ ok commit)
        × (clear_awaited_call (apply_commit s commit now) call.site_key ≡ t)
  unfolding call_return
  call_return_sound s status result h = elim (Option-cases (awaited_call s)) [
    | inl e ↦ absurd (let h' = rw (e, call_return) at h in cc)
    | inr (call, e) ↦
        let (commit, c, k) =
          lift_return->>=
            (fire_call_return engine wfd (to_wfes s none now)
              (return_of engine wfd now status result) now)
            _ (rw (e, call_return) at h) in
        (call, commit, c, cc)
  ]

  -- When a step is taken at a node, each required upload of the node that closes the step's action is
  -- there.
  pub advance-uploaded :
      (s t : SimState) (req : Request) (node : Text) (g : GateSlot)
      → advance engine wfd now s req ≡ ok t
      → or_opt req.node_hint s.current_node ≡ some node
      → Memᴰ g (gate_slots wfd node (some req.action))
      → g.gates ≡ true
      → g.required ≡ true
      → has_attachment s g.group g.item ≡ true
  unfolding missing_gate_attachments
  advance-uploaded s t req node g h n m gates required =
      let (_, none_missing, _) = advance_sound s t req h in
      missing_required-nil (gate_slots wfd node (some req.action)) (has_attachment s)
        (rw (n, missing_gate_attachments) at none_missing) m gates required

-- an upload that is taken is stored under the node that waits
pub attach_sound :
    (max_bytes : Text → ℕ) (wfd : Wfd) (s : SimState) (a : SimAttachment) {t : SimState}
    → attach max_bytes wfd s a ≡ ok t
    → store s (record a { node = head? (active_nodes s) }) ≡ t
unfolding attach
attach_sound max_bytes wfd s a h =
    elim (Bool-cases (is_some (lookup a.group (Wfd.attachments wfd)))) [
      | inr f ↦ absurd (let h' = rw (f, attach) at h in cc)
      | inl g ↦ elim (Option-cases (find_item wfd a.group a.item)) [
        | inl e ↦ absurd (let h' = rw (g, e, attach) at h in cc)
        | inr (def, e) ↦ elim (Bool-cases (collected_here wfd s a.group a.item)) [
          | inr f ↦ absurd (let h' = rw (g, e, f, attach) at h in cc)
          | inl c ↦
              let (_, _, k) =
                >>=-eq-ok
                  (lift_reject (check_upload max_bytes def a.content_type (size_of a.size_bytes))) _
                  (rw (g, e, c, attach) at h) in
              cc
        ]
      ]
    ]
