-- ===== src/Pipeline/Triggers/Retries.antt =====
-- crates/wfe-core/src/v22/pipeline.rs (`execute_with_retry`): the loop ends, within the attempts that its
-- retriers have.
use agnoflow_engine.Prelude.{
  ℕ, zero, suc, ◌+◌, ◌-◌, ◌<◌, ◌≡◌, refl, some, List, [], ◌∷◌, leb, Bool-cases, Option-cases, inl,
  inr, arith, Result, ok, err, result_cases,
}
use agnoflow_engine.Types.Json.{Json}
use agnoflow_engine.Types.Wfd.{AutoexecDef, Retrier}
use agnoflow_engine.Types.Commit.{ExecFailure, ExecEnv, AutoexecRunner}
use agnoflow_engine.Pipeline.Triggers.{
  catches, next_attempt, attempt_result, retry_loop, fresh, attempts, execute_with_retry,
}

-- the attempts that are left
abbrev remaining : List (Retrier × ℕ) → ℕ
remaining [] = 0
remaining ((r, used) ∷ rs) = r.max_attempts - used + remaining rs

remaining-fresh : (retry : List Retrier) → remaining (fresh retry) ≡ attempts retry
remaining-fresh [] = refl
remaining-fresh (r ∷ rs) = omega (arith, remaining-fresh rs)

-- each further attempt takes one of those that are left
remaining-next :
    (f : ExecFailure) (rs : List (Retrier × ℕ)) {rs' : List (Retrier × ℕ)}
    → next_attempt f rs ≡ some rs'
    → suc (remaining rs') ≡ remaining rs
unfolding next_attempt
remaining-next f [] h = absurd (cc)
remaining-next f ((r, used) ∷ rs) {rs'} h = elim (Bool-cases (catches (Retrier.error_equals r) f)) [
  | inl t ↦ elim (Bool-cases (leb (Retrier.max_attempts r) used)) [
    | inl u ↦ absurd (let h' = rw (t, u, next_attempt) at h in cc)
    | inr u ↦
        let h' = rw (t, u, next_attempt) at h in
        let q : (r, used + 1) ∷ rs ≡ rs' = cc in rw (← q) (ground arith)
  ]
  | inr t ↦ elim (Option-cases (next_attempt f rs)) [
    | inl e ↦ absurd (let h' = rw (t, e, next_attempt) at h in cc)
    | inr (ss, e) ↦
        let h' = rw (t, e, next_attempt) at h in
        let ih = remaining-next f rs e in
        let q : (r, used) ∷ ss ≡ rs' = cc in rw (← q) (omega (arith, ih))
  ]
]

module _ (exec : AutoexecRunner) (def : AutoexecDef) (env : ExecEnv) where
  -- Two loops with more fuel than there are attempts left end, and end alike.
  retry_loop_same :
      (f g runs : ℕ) (rs : List (Retrier × ℕ))
      → remaining rs < f
      → remaining rs < g
      → (r : Result ExecFailure Json) × (retry_loop exec def env f runs rs ≡ some r)
        × (retry_loop exec def env g runs rs ≡ some r)
  unfolding retry_loop
  retry_loop_same zero g runs rs b c = absurd (omega arith)
  retry_loop_same (suc f) zero runs rs b c = absurd (omega arith)
  retry_loop_same (suc f) (suc g) runs rs b c =
      elim (result_cases (attempt_result (exec.run runs def env))) [
        | inl (v, e) ↦ (ok v, rw (e, retry_loop) refl, rw (e, retry_loop) refl)
        | inr (x, e) ↦ elim (Option-cases (next_attempt x rs)) [
          | inl n ↦ (err x, rw (e, n, retry_loop) refl, rw (e, n, retry_loop) refl)
          | inr (ss, n) ↦
              let less = remaining-next x rs n in
              let (r, p, q) = retry_loop_same f g (suc runs) ss (omega arith) (omega arith) in
              (r, rw (e, n, retry_loop) p, rw (e, n, retry_loop) q)
        ]
      ]

  -- An autoexec with retries ends: any fuel past the attempts that its retriers have together gives the
  -- same result, so that it is run once more often than those attempts at most.
  pub retry_loop_enough :
      (retry : List Retrier) (fuel : ℕ)
      → attempts retry < fuel
      → retry_loop exec def env fuel 0 (fresh retry) ≡ some (execute_with_retry exec def env retry)
  unfolding execute_with_retry
  retry_loop_enough retry fuel b =
      let all = remaining-fresh retry in
      let (r, p, q) =
        retry_loop_same fuel (suc (attempts retry)) 0 (fresh retry) (omega arith) (omega arith) in
      rw (q, execute_with_retry) p
