-- ===== src/Tests/PipelineRuns.antt =====
-- Runs of the pipeline (crates/wfe-core/src/v22/pipeline.rs) and of the outcomes (v22/ports.rs).
use agnoflow_engine.Duration.{parse_iso8601_duration}
use agnoflow_engine.Ledger.Kind.{skipped_escalation_marker, escalation_marker}
use agnoflow_engine.Access.Grants.{node_entered_at}
use agnoflow_engine.Prelude.{
  is_within, i64, ◌+ℤ◌, lookup, ℕ, ◌^◌, ◌≡◌, ◌≢◌, refl, false, none, some, [], ◌∷◌, Memᴰ, inl,
  arith, codes, decimal_text, ◌⊎◌, text_eq, ok,
}
use agnoflow_engine.Types.Json.{null}
use agnoflow_engine.Types.Wfd.{Wft, Wfd}
use agnoflow_engine.Outcome.{CommitOutcome}
use agnoflow_engine.Ledger.Order.{Increasing}
use agnoflow_engine.Pipeline.Routing.{offered_targets, select_wft}
use agnoflow_engine.Pipeline.Routing.Menu.{Selects, select_wft_sound}
use agnoflow_engine.Pipeline.Sla.{EscalationForecast, clock_base, next_escalation}
use agnoflow_engine.Pipeline.Sla.Escalation.{Forecasts, next_escalation_sound, settled_not_forecast}
use agnoflow_engine.Ledger.Kind.{escalation_marker, skipped_escalation_marker}
use agnoflow_engine.Tests.Data.{row, review, day_step, wfd, wfes_with, wfes, ledger}

abbrev at_join : CommitOutcome
at_join = CommitOutcome.join_complete (codes "left") false [] (CommitOutcome.terminal null)

abbrev menu : Wft
menu = Wft.send_back (codes "draft" ∷ codes "other" ∷ [])

draft_is_chosen :
    select_wft menu (some (codes "draft")) (codes "draft" ∷ []) ≡ ok (Wft.node (codes "draft"))
unfolding select_wft text_eq
draft_is_chosen = refl

select_wft_sound_example :
    Selects menu (some (codes "draft")) (codes "draft" ∷ []) (Wft.node (codes "draft"))
select_wft_sound_example =
    select_wft_sound menu (some (codes "draft")) (codes "draft" ∷ []) draft_is_chosen

draft_is_offered :
    Memᴰ (codes "draft") (offered_targets (codes "draft" ∷ codes "other" ∷ []) (codes "draft" ∷ []))
unfolding offered_targets text_eq
draft_is_offered = Memᴰ.head refl

ledger_grows : Increasing ledger
ledger_grows = ((omega arith, tt), (tt, tt))

abbrev max_instant : ℕ
max_instant = 2 ^ 100

-- before the escalation has fired, a day after the entry at 1
abbrev first_forecast : EscalationForecast
first_forecast = record { step_idx = 0; entered_at = 1; deadline = 86400000000001; overdue = false }

step_is_next :
    next_escalation max_instant wfd
      (wfes_with (row 1 (codes "submit") (some (codes "review")) ∷ []))
      5
      none
    ≡ ok (some first_forecast)
unfolding next_escalation node_entered_at lookup text_eq escalation_marker skipped_escalation_marker
    parse_iso8601_duration is_within i64 ◌+ℤ◌
step_is_next = refl

next_escalation_sound_example :
    Forecasts max_instant wfd
      (wfes_with (row 1 (codes "submit") (some (codes "review")) ∷ []))
      5
      none
      first_forecast
next_escalation_sound_example =
    next_escalation_sound max_instant wfd
      (wfes_with (row 1 (codes "submit") (some (codes "review")) ∷ [])) 5 none first_forecast
      step_is_next

-- the same node with a second step
abbrev two_steps : Wfd
two_steps = record wfd {
  nodes = (codes "review", record review { escalation = day_step ∷ day_step ∷ [] }) ∷ [];
}

abbrev second_forecast : EscalationForecast
second_forecast = record first_forecast { step_idx = 1 }

second_is_next : next_escalation max_instant two_steps wfes 5 none ≡ ok (some second_forecast)
unfolding next_escalation node_entered_at lookup text_eq escalation_marker skipped_escalation_marker
    decimal_text parse_iso8601_duration is_within i64 ◌+ℤ◌
second_is_next = refl

clock_runs : clock_base wfes none ≡ some (codes "review", 1)
unfolding clock_base node_entered_at
clock_runs = refl

written_first : codes "escalate:review:0" ≡ escalation_marker (codes "review") 0
unfolding escalation_marker decimal_text
written_first = refl

marker_is_written :
    (codes "escalate:review:0" ≡ escalation_marker (codes "review") 0)
    ⊎ (codes "escalate:review:0" ≡ skipped_escalation_marker (codes "review") 0)
marker_is_written = inl written_first

settled_not_forecast_example : second_forecast.step_idx ≢ 0
settled_not_forecast_example =
    settled_not_forecast max_instant two_steps wfes 5 none second_forecast (codes "review") 1 0
      (row 2 (codes "escalate:review:0") none) (Memᴰ.tail (Memᴰ.head refl)) marker_is_written
      (omega arith) clock_runs second_is_next
