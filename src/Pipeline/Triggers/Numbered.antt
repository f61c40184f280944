-- ===== src/Pipeline/Triggers/Numbered.antt =====
-- crates/wfe-core/src/v22/pipeline.rs (`run_triggers`): the rows of the triggers are numbered one after
-- another.
use agnoflow_engine.Prelude.{
  ℕ, ◌≡◌, refl, true, false, none, some, List, [], ◌∷◌, lookup, inl, inr, Bool-cases, Option-cases,
  ok, >>=-eq-ok, result_cases,
}
use agnoflow_engine.Types.Json.{Json}
use agnoflow_engine.Types.Wfah.{WfahEntry}
use agnoflow_engine.Types.Wfd.{AutoexecDef, TriggerInvocation, Wfd}
use agnoflow_engine.Types.Host.{Host}
use agnoflow_engine.Types.Commit.{ExecFailure, AutoexecRunner}
use agnoflow_engine.Env.{RunEnv}
use agnoflow_engine.Pipeline.Rows.{seq_after}
use agnoflow_engine.Pipeline.Rows.Sequence.{Numbered, seq_after-append, Numbered-append}
use agnoflow_engine.Pipeline.Triggers.{
  Staging, TriggerScope, failed_payload, done_payload, trigger_row, add_row, caught,
  execute_with_retry, exec_env, guarded, write, trigger_failed, trigger_done, run_trigger,
  run_triggers,
}

-- What is staged is numbered from `n` on, and the next number is the one behind it.
abbrev pub Staged : ℕ → Staging → Type 0
Staged n s = Numbered n s.rows × (s.seq ≡ seq_after n s.rows)

Staged-add :
    (n : ℕ) (s : Staging) (context : Json) (row : WfahEntry)
    → row.seq ≡ s.seq
    → Staged n s
    → Staged n (add_row s context row)
Staged-add n s context row e (h, k) = (
  Numbered-append n s.rows (row ∷ []) h (rw e k, tt),
  rw (seq_after-append n s.rows (row ∷ []), k) refl,
)

module _ (host : Host) (exec : AutoexecRunner) (env : RunEnv) (at : TriggerScope) (n : ℕ) where
  Staged-failed :
      (trig : TriggerInvocation) (f : ExecFailure) (s : Staging) {t : Staging}
      → Staged n s
      → trigger_failed host exec env at trig f s ≡ ok t
      → Staged n t
  unfolding trigger_failed trigger_row
  Staged-failed trig f s {t} st h = elim (Option-cases (caught trig.catch f)) [
    | inr (effects, e) ↦
        let (context, _, k) =
          >>=-eq-ok (write host exec env at (some effects) none s.context) _
            (rw (e, trigger_failed) at h) in
        let row = trigger_row at trig.use_ (failed_payload f true none) s.seq in
        let q : add_row s context row ≡ t = cc in rw (← q) (Staged-add n s context row refl st)
    | inl e ↦ elim (Bool-cases trig.required) [
      | inl r ↦ absurd (let h' = rw (e, r, trigger_failed) at h in cc)
      | inr r ↦
          let h' = rw (e, r, trigger_failed) at h in
          let row = trigger_row at trig.use_ (failed_payload f false (some false)) s.seq in
          let q : add_row s s.context row ≡ t = cc in
          rw (← q) (Staged-add n s s.context row refl st)
    ]
  ]

  Staged-done :
      (trig : TriggerInvocation) (def : AutoexecDef) (v : Json) (s : Staging) {t : Staging}
      → Staged n s
      → trigger_done host exec env at trig def v s ≡ ok t
      → Staged n t
  unfolding trigger_done trigger_row
  Staged-done trig def v s {t} st h =
      let (context, _, k) =
        >>=-eq-ok (write host exec env at def.wfes_effects (some v) s.context) _ h in
      let row = trigger_row at trig.use_ (done_payload v) s.seq in
      let q : add_row s context row ≡ t = cc in rw (← q) (Staged-add n s context row refl st)

  Staged-trigger :
      (trig : TriggerInvocation) (s : Staging) {t : Staging}
      → Staged n s
      → run_trigger host exec env at trig s ≡ ok t
      → Staged n t
  unfolding run_trigger
  Staged-trigger trig s {t} st h =
      let (runs, _, h1) = >>=-eq-ok (guarded host exec env at trig.when s.context) _ h in
      elim (Bool-cases runs) [
        | inr f ↦ let h2 = rw f at h1 in let q : s ≡ t = cc in rw (← q) st
        | inl r ↦ elim (Option-cases (lookup trig.use_ (Wfd.autoexec at.wfd))) [
          | inl e ↦ absurd (let h2 = rw (r, e) at h1 in cc)
          | inr (def, e) ↦
              elim (result_cases
                (execute_with_retry exec def (exec_env host exec env at s.context) trig.retry)) [
                  | inl (v, q) ↦ Staged-done trig def v s st (rw (r, e, q) at h1)
                  | inr (f, q) ↦ Staged-failed trig f s st (rw (r, e, q) at h1)
                ]
        ]
      ]

  pub Staged-run :
      (trigs : List TriggerInvocation) (s : Staging) {t : Staging}
      → Staged n s
      → run_triggers host exec env at trigs s ≡ ok t
      → Staged n t
  unfolding run_triggers
  Staged-run [] s {t} st h = let q : s ≡ t = cc in rw (← q) st
  Staged-run (trig ∷ trigs) s st h =
      let (u, r, k) = >>=-eq-ok (run_trigger host exec env at trig s) _ h in
      Staged-run trigs u (Staged-trigger trig s st r) k
