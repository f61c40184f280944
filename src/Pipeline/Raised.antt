-- ===== src/Pipeline/Raised.antt =====
-- crates/wfe-core/src/v22/pipeline.rs: the `?` on a step whose error is raised into a transition.
use agnoflow_engine.Prelude.{◌≡◌, refl, Result, ok, err, ◌>>=◌}
use agnoflow_engine.Types.Errors.{Fallible}
use agnoflow_engine.Duration.{Failure}
use agnoflow_engine.Pipeline.Calls.{raise}

-- A chain that raises its first step's error has succeeded at it.
pub raise->>= :
    {A B : Type 0} (step : Fallible A) (next : A → Result Failure B) {last : B}
    → (raise step >>= next) ≡ ok last
    → (value : A) × (step ≡ ok value) × (next value ≡ ok last)
raise->>= (err e) next h = absurd (cc)
raise->>= (ok value) next h = (value, refl, h)
