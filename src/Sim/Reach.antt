-- ===== src/Sim/Reach.antt =====
-- crates/wfe/src/sim.rs: the steps of a simulation, and the instances that they reach.
use agnoflow_engine.Prelude.{ℕ, ◌≡◌, refl, subst, Option, none, some, Text, ok, >>=-eq-ok}
use agnoflow_engine.Types.Json.{Json}
use agnoflow_engine.Types.Actor.{Instant, Actor}
use agnoflow_engine.Types.Wfd.{Wfd}
use agnoflow_engine.Pipeline.Seat.{Engine, Request}
use agnoflow_engine.Pipeline.Apply.Admitted.{apply_sound}
use agnoflow_engine.Pipeline.Returns.Concluded.{fire_call_return_sound}
use agnoflow_engine.Pipeline.Start.{StartRequest, start}
use agnoflow_engine.Pipeline.Start.Landed.{start_sound}
use agnoflow_engine.Sim.{SimState, SimAttachment, from_new_wfe, to_wfes, clear_awaited_call}
use agnoflow_engine.Sim.Steps.{begin, advance, return_of, call_return, attach, detach}
use agnoflow_engine.Sim.Gates.{advance_sound, carry_on_sound, call_return_sound, attach_sound}
use agnoflow_engine.Sim.Shape.{Shape, Shape-new}
use agnoflow_engine.Sim.Progress.{FullForks, Shape-took, Took-seat, Took-return}

-- fields that no shape reads may change
Shape-same :
    {s t : SimState}
    → Shape s
    → t.status ≡ s.status
    → t.current_node ≡ s.current_node
    → t.join_target ≡ s.join_target
    → t.branches ≡ s.branches
    → t.end_response ≡ s.end_response
    → Shape t
Shape-same (Shape.alone {n} st cur j b) e f g h i =
    Shape.alone {n = n} (rw e st) (rw f cur) (rw g j) (rw h b)
Shape-same (Shape.forked st cur j count) e f g h i =
    Shape.forked (rw e st) (rw f cur) (rw g j) (rw h count)
Shape-same (Shape.ended st cur j b r) e f g h i =
    Shape.ended (rw e st) (rw f cur) (rw g j) (rw h b) (rw i r)

module _ (engine : Engine) (wfd : Wfd) (max_bytes : Text → ℕ) where
  -- the steps of a simulation
  pub data Step (s t : SimState) : Type 0 where
    advanced : (now : Instant) (req : Request) → advance engine wfd now s req ≡ ok t → Step s t
    returned :
        (now : Instant) (status : Text) (result : Option Json)
        → call_return engine wfd now s status result ≡ ok t
        → Step s t
    uploaded : (a : SimAttachment) → attach max_bytes wfd s a ≡ ok t → Step s t
    removed : (group item : Text) → t ≡ (detach s group item).0 → Step s t

  -- what the steps reach from a start
  pub data Reach : SimState → Type 0 where
    begun :
        (now : Instant) (req : StartRequest) {s : SimState}
        → begin engine wfd now req ≡ ok s
        → Reach s
    followed : {s t : SimState} → Reach s → Step s t → Reach t

  Shape-begun :
      (now : Instant) (req : StartRequest) {s : SimState}
      → begin engine wfd now req ≡ ok s
      → Shape s
  unfolding begin
  Shape-begun now req {s} h =
      let (new, e, k) = >>=-eq-ok (start engine wfd now (record req { deadline = none })) _ h in
      let (_, _, _, _, o) = start_sound engine wfd now (record req { deadline = none }) e in
      let q : from_new_wfe new ≡ s = cc in rw (← q) (Shape-new new o.lands refl)

  Shape-advanced :
      (now : Instant) (req : Request) {s t : SimState}
      → FullForks wfd
      → Shape s
      → advance engine wfd now s req ≡ ok t
      → Shape t
  Shape-advanced now req {s} {t} full shape h =
      let (_, _, k) = advance_sound engine wfd now s t req h in
      let (commit, a, q) = carry_on_sound engine wfd now s req k in
      let (seat, _, seated, carried) =
        apply_sound engine wfd now (to_wfes s (some (Actor.user_id req.actor)) now) req a in
      subst Shape q (
        Shape-took
          (Took-seat engine wfd now s req (Actor.user_id req.actor) shape full seated carried))

  Shape-returned :
      (now : Instant) (status : Text) (result : Option Json) {s t : SimState}
      → FullForks wfd
      → Shape s
      → call_return engine wfd now s status result ≡ ok t
      → Shape t
  unfolding clear_awaited_call
  Shape-returned now status result {s} {t} full shape h =
      let r = return_of engine wfd now status result in
      let (call, commit, c, q) = call_return_sound engine wfd now s status result h in
      let after = Shape-took (
        Took-return engine wfd now s r shape full
          (fire_call_return_sound engine wfd (to_wfes s none now) r now c)) in
      rw (← q) (Shape-same after refl refl refl refl refl)

  Shape-uploaded :
      (a : SimAttachment) {s t : SimState} → Shape s → attach max_bytes wfd s a ≡ ok t → Shape t
  Shape-uploaded a {s} {t} shape h =
      rw (← attach_sound max_bytes wfd s a h) (Shape-same shape refl refl refl refl refl)

  Shape-Step : {s t : SimState} → FullForks wfd → Shape s → Step s t → Shape t
  unfolding detach
  Shape-Step full shape (advanced now req h) = Shape-advanced now req full shape h
  Shape-Step full shape (returned now status result h) =
      Shape-returned now status result full shape h
  Shape-Step full shape (uploaded a h) = Shape-uploaded a shape h
  Shape-Step full shape (removed group item e) = rw e (Shape-same shape refl refl refl refl refl)

  -- Every instance that the steps of a simulation reach, from a document whose forks all have a
  -- branch, either stands at one node, or is forked and has an active branch, or has ended with a
  -- response.
  pub Shape-Reach : {s : SimState} → FullForks wfd → Reach s → Shape s
  Shape-Reach full (begun now req h) = Shape-begun now req h
  Shape-Reach full (followed r step) = Shape-Step full (Shape-Reach full r) step
