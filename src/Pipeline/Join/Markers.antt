-- ===== src/Pipeline/Join/Markers.antt =====
-- crates/wfe-core/src/v22/pipeline.rs (`stage_parallel_markers`): the rows of the system are numbered
-- one after another.
use agnoflow_engine.Prelude.{ℕ, ◌+◌, refl, List, [], ◌∷◌, ◌++◌, is_some}
use agnoflow_engine.Types.Actor.{Instant}
use agnoflow_engine.Types.Wfah.{Wfah, u32}
use agnoflow_engine.Types.Wfes.{Wfes}
use agnoflow_engine.Types.Host.{Host}
use agnoflow_engine.Outcome.{CommitOutcome}
use agnoflow_engine.Pipeline.Rows.Sequence.{Numbered}
use agnoflow_engine.Pipeline.Join.{
  Trigger, Draft, number_rows, arrival_drafts, ending_drafts, collapse_of, stage_parallel_markers,
}

number_rows-Numbered :
    (wfah : Wfah) (now : Instant) (seq : ℕ) (drafts : List Draft)
    → Numbered seq (number_rows wfah now seq drafts)
unfolding number_rows
number_rows-Numbered wfah now seq [] = tt
number_rows-Numbered wfah now seq ((action, entry, input) ∷ drafts) =
    (refl, number_rows-Numbered wfah now (u32 (seq + 1)) drafts)

pub stage_parallel_markers-Numbered :
    (host : Host) (wfes : Wfes) (trigger : Trigger) (outcome : CommitOutcome) (seq : ℕ)
    (now : Instant)
    → Numbered seq (stage_parallel_markers host wfes trigger outcome seq now)
unfolding stage_parallel_markers
stage_parallel_markers-Numbered host wfes trigger outcome seq now =
    number_rows-Numbered wfes.wfah now seq (
      arrival_drafts host wfes trigger outcome now
      ++ ending_drafts host wfes trigger outcome (collapse_of (is_some wfes.join_target) outcome))
