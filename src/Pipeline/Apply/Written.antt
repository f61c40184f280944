-- ===== src/Pipeline/Apply/Written.antt =====
-- crates/wfe-core/src/v22/pipeline.rs (`guard_written_ctx`) and ctx_types.rs: what an action may have
-- written into the context.
use agnoflow_engine.Prelude.{
  ◌≡◌, refl, false, some, List, [], ◌∷◌, ◌++◌, Text, opt_eq, Result, ok, err,
}
use agnoflow_engine.Types.Json.{Json, object, Fields, end, field, get}
use agnoflow_engine.Types.Equality.{json_eq}
use agnoflow_engine.Types.Errors.{EngineError, Violation, ctx_type_mismatch}
use agnoflow_engine.Types.Actor.{Instant}
use agnoflow_engine.Types.Wfd.{Wfd}
use agnoflow_engine.Types.Wfes.{Wfes}
use agnoflow_engine.Types.Host.{Host}
use agnoflow_engine.Types.Commit.{TransitionCommit}
use agnoflow_engine.ContextTypes.{validate_at, written_field, written_fields, validate_written}
use agnoflow_engine.Pipeline.Input.{no_violation, guard_written_ctx}
use agnoflow_engine.Pipeline.Seat.{Engine, Request}
use agnoflow_engine.Pipeline.Apply.{apply}
use agnoflow_engine.Pipeline.Apply.Admitted.{apply_sound}

-- an entry of an object
pub data Entry (k : Text) (v : Json) : Fields → Type 0 where
  here : {m : Fields} → Entry k v (field k v m)
  there : {j : Text} {w : Json} {m : Fields} → Entry k v m → Entry k v (field j w m)

append-nil_left : {A : Type 0} (xs ys : List A) → xs ++ ys ≡ [] → xs ≡ []
append-nil_left [] ys h = refl
append-nil_left (x ∷ xs) ys h = absurd (cc)

append-nil_right : {A : Type 0} (xs ys : List A) → xs ++ ys ≡ [] → ys ≡ []
append-nil_right [] ys h = h
append-nil_right (x ∷ xs) ys h = absurd (cc)

module _ (host : Host) (context before : Json) (k : Text) (v : Json) where
  written_fields-nil :
      (m : Fields)
      → written_fields host context before m ≡ []
      → Entry k v m
      → opt_eq json_eq (get k before) (some v) ≡ false
      → validate_at host context k v ≡ []
  unfolding written_fields written_field
  written_fields-nil end h e c = elim e [ ]
  written_fields-nil (field _ _ m) h here c =
      let first = append-nil_left _ (written_fields host context before m) h in
      rw (c, written_field) at first
  written_fields-nil (field j w m) h (there e) c =
      written_fields-nil m (append-nil_right (written_field host context before j w) _ h) e c

no_violation-nil :
    (fail : List Violation → Result EngineError (Unit {0})) (vs : List Violation)
    → ((ws : List Violation) → ¬ (fail ws ≡ ok tt))
    → no_violation fail vs ≡ ok tt
    → vs ≡ []
no_violation-nil fail [] n h = refl
no_violation-nil fail (v ∷ vs) n h = absurd (n (v ∷ vs) h)

module _ (engine : Engine) (wfd : Wfd) (now : Instant) (wfes : Wfes) (req : Request) where
  -- Each entry of the context that an action commits and that it has changed passes the check against
  -- the document's schema.
  pub apply-written :
      {commit : TransitionCommit} {m : Fields} (k : Text) (v : Json)
      → apply engine wfd now wfes req ≡ ok commit
      → commit.new_dynctx ≡ object m
      → Entry k v m
      → opt_eq json_eq (get k wfes.dynctx) (some v) ≡ false
      → validate_at engine.host wfd.context k v ≡ []
  unfolding guard_written_ctx validate_written
  apply-written {commit} {m} k v h o e changed =
      let (seat, _, _, c) = apply_sound engine wfd now wfes req h in
      let done = c.concluded in
      let is : c.routed.1 ≡ object m = cc in
      let clean =
        no_violation-nil (λ vs. err (ctx_type_mismatch vs))
          (written_fields engine.host wfd.context wfes.dynctx m) (λ ws q. absurd (cc))
          (rw is at done.written_fits) in
      written_fields-nil engine.host wfd.context wfes.dynctx k v m clean e changed
