-- ===== src/Pipeline/Apply/Numbered.antt =====
-- crates/wfe-core/src/v22/pipeline.rs (`Engine::apply`): the rows of a transition continue the ledger.
use agnoflow_engine.Prelude.{◌+◌, ◌^◌, ◌<◌, ◌≡◌, refl, All, length, ok}
use agnoflow_engine.Types.Actor.{Instant}
use agnoflow_engine.Types.Wfah.{WfahEntry, u32, extended}
use agnoflow_engine.Types.Wfd.{ActionDef, Wfd}
use agnoflow_engine.Types.Wfes.{Wfes}
use agnoflow_engine.Types.Commit.{TransitionCommit}
use agnoflow_engine.Outcome.{CommitOutcome}
use agnoflow_engine.Ledger.Order.{Increasing}
use agnoflow_engine.Pipeline.Rows.{next_seq, stamp_movement}
use agnoflow_engine.Pipeline.Rows.Sequence.{Numbered, Numbered-append, Increasing-Numbered}
use agnoflow_engine.Pipeline.Join.{stage_parallel_markers}
use agnoflow_engine.Pipeline.Join.Markers.{stage_parallel_markers-Numbered}
use agnoflow_engine.Pipeline.Triggers.{Staging}
use agnoflow_engine.Pipeline.Triggers.Numbered.{Staged, Staged-run}
use agnoflow_engine.Pipeline.Seat.{Engine, Request, Seat}
use agnoflow_engine.Pipeline.Apply.{trigger_of, scope, opened, moved_rows, all_rows, apply}
use agnoflow_engine.Pipeline.Apply.Admitted.{apply_sound}

module _ (engine : Engine) (wfd : Wfd) (now : Instant) (wfes : Wfes) (req : Request) where
  all_rows-Numbered :
      (seat : Seat) (s : Staging) (outcome : CommitOutcome)
      → Staged (u32 (next_seq wfes.wfah + 1)) s
      → Numbered (next_seq wfes.wfah) (all_rows engine wfd now wfes req seat s outcome)
  unfolding stamp_movement
  all_rows-Numbered seat s outcome st =
      Numbered-append (next_seq wfes.wfah) (moved_rows engine wfd now wfes req seat s outcome)
        (stage_parallel_markers engine.host wfes (trigger_of req seat.branch) outcome s.seq now)
        (refl, st.0)
        (rw (← st.1) (
          stage_parallel_markers-Numbered engine.host wfes (trigger_of req seat.branch) outcome
            s.seq now))

  -- The rows that an action commits, its own, those of its triggers and those of the parallel mode,
  -- are numbered one after another from the number behind the ledger's last one, in 32 bits.
  pub apply-Numbered :
      {commit : TransitionCommit}
      → apply engine wfd now wfes req ≡ ok commit
      → Numbered (next_seq wfes.wfah) commit.wfah_entries
  apply-Numbered h =
      let (seat, _, _, c) = apply_sound engine wfd now wfes req h in
      let done = c.concluded in
      let staged =
        Staged-run engine.host engine.exec engine.env (scope engine wfd now wfes req seat)
          (u32 (next_seq wfes.wfah + 1)) (ActionDef.trigger seat.transition)
          (opened engine wfd now wfes req c.context) (tt, refl) c.triggered in
      rw done.rows_are (all_rows-Numbered seat c.staging c.routed.0 staged)

  -- A ledger whose numbers grow still grows behind an action's rows, as long as the new numbers fit
  -- into 32 bits.
  pub apply-Increasing :
      {commit : TransitionCommit}
      → apply engine wfd now wfes req ≡ ok commit
      → Increasing wfes.wfah
      → All (λ e. WfahEntry.seq e + 1 + length commit.wfah_entries < 2 ^ 32) wfes.wfah
      → 1 + length commit.wfah_entries < 2 ^ 32
      → Increasing (extended wfes.wfah commit.wfah_entries)
  unfolding extended
  apply-Increasing {commit} h inc bound short =
      Increasing-Numbered wfes.wfah commit.wfah_entries (apply-Numbered h) inc bound short
