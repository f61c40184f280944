-- ===== src/Pipeline/Sla.antt =====
-- crates/wfe-core/src/v22/pipeline.rs: when a deadline, a claim timeout or an escalation is due. An
-- instant counts nanoseconds from the first one that chrono holds; `max_instant` is the last one. Its
-- `+` panics out of this range.
pub mod Escalation
use agnoflow_engine.Prelude.{
  ℕ, ◌+◌, ◌-◌, ◌*◌, ℤ, pos, negsuc, Bool, false, ◌&&◌, ◌||◌, Option, none, some, List, [], ◌∷◌,
  if◌then◌else◌, ltb, leb, Text, text_eq, any, map_opt, and_then, lookup, Result, ok, err, ◌>>=◌,
}
use agnoflow_engine.Types.Actor.{Instant}
use agnoflow_engine.Types.Wfah.{Wfah, WfahEntry}
use agnoflow_engine.Types.Wfd.{EscalationStep, NodeDef, Wfd}
use agnoflow_engine.Types.Wfes.{BranchState, Wfes}
use agnoflow_engine.Duration.{Failure, overflow, parse_iso8601_duration}
use agnoflow_engine.Ledger.Kind.{escalation_marker, skipped_escalation_marker}
use agnoflow_engine.Access.Grants.{node_entered_at}
use agnoflow_engine.Pipeline.{is_terminal_class}
use agnoflow_engine.Pipeline.Rows.{active_branch}

pub record EscalationForecast : Type 0 where
  pub step_idx : ℕ
  pub entered_at : Instant
  pub deadline : Instant
  pub overdue : Bool

abbrev pub nanos : ℕ
nanos = 1000000000

-- the node that the clock runs on, and since when: the branch's, or that of the instance
unfoldable pub clock_base : Wfes → Option Text → Option (Text × Instant)
clock_base wfes (some b) = map_opt (λ s. (b, BranchState.entered_at s)) (active_branch wfes b)
clock_base wfes none =
    and_then wfes.current_node λ node. map_opt (λ at. (node, at)) (node_entered_at wfes.wfah)

-- the step has fired, or an administrator has passed it over, since the entry
pub settles : Text → Instant → ℕ → WfahEntry → Bool
settles node_key entered idx e =
    (text_eq e.action (escalation_marker node_key idx)
      || text_eq e.action (skipped_escalation_marker node_key idx))
    && leb entered e.applied_at

pub settled : Wfah → Text → Instant → ℕ → Bool
unfolding settles
settled wfah node_key entered idx = any (settles node_key entered idx) wfah

-- the first step from the index `idx` on that is not settled
pub first_open : Wfah → Text → Instant → ℕ → List EscalationStep → Option (ℕ × EscalationStep)
unfolding settled
first_open wfah node_key entered idx [] = none
first_open wfah node_key entered idx (step ∷ steps) =
    let rest = first_open wfah node_key entered (idx + 1) steps in
    if settled wfah node_key entered idx then rest else some (idx, step)

unfoldable pub deadline_due : Wfes → Instant → Bool
deadline_due wfes now =
    if is_terminal_class wfes.status
    then false
    else elim wfes.deadline [ none ↦ false | some d ↦ leb d now ]

module _ (max_instant : Instant) where
  -- `+` of an instant and a duration
  unfoldable pub later : Instant → ℤ → Result Failure Instant
  later at (pos seconds) =
      if ltb max_instant (at + seconds * nanos) then err overflow else ok (at + seconds * nanos)
  later at (negsuc before) =
      if ltb at ((before + 1) * nanos) then err overflow else ok (at - (before + 1) * nanos)

  pub forecast : Instant → Instant → ℕ × EscalationStep → Result Failure (Option EscalationForecast)
  unfolding later
  forecast now entered (idx, step) = parse_iso8601_duration step.after >>= λ seconds.
      later entered seconds >>= λ deadline. ok (
        some record {
          step_idx = idx;
          entered_at = entered;
          deadline = deadline;
          overdue = leb deadline now;
        })

  -- the steps of the node where the clock runs
  pub open_step : Wfd → Wfes → Text × Instant → Option (ℕ × EscalationStep)
  unfolding first_open
  open_step wfd wfes (node_key, entered) =
      and_then (lookup node_key wfd.nodes)
        λ node. first_open wfes.wfah node_key entered 0 (NodeDef.escalation node)

  abbrev step_forecast :
      Instant → Instant → Option (ℕ × EscalationStep) → Result Failure (Option EscalationForecast)
  step_forecast now entered none = ok none
  step_forecast now entered (some s) = forecast now entered s

  abbrev base_forecast :
      Wfd → Wfes → Instant → Option (Text × Instant) → Result Failure (Option EscalationForecast)
  base_forecast wfd wfes now none = ok none
  base_forecast wfd wfes now (some base) = step_forecast now base.1 (open_step wfd wfes base)

  unfoldable pub next_escalation :
      Wfd → Wfes → Instant → Option Text → Result Failure (Option EscalationForecast)
  unfolding clock_base open_step forecast
  next_escalation wfd wfes now branch =
      if is_terminal_class wfes.status
      then ok none
      else base_forecast wfd wfes now (clock_base wfes branch)

  pub due_escalation : Wfd → Wfes → Instant → Option Text → Result Failure (Option ℕ)
  unfolding next_escalation
  due_escalation wfd wfes now branch =
      next_escalation wfd wfes now branch >>= λ (f : Option EscalationForecast).
      ok (and_then f λ f. if f.overdue then some f.step_idx else none)

  -- the node whose claim timeout runs, and since when
  pub claim_base : Wfes → Option Text → Option (Text × Instant)
  claim_base wfes (some b) =
      map_opt (λ at. (b, at)) (and_then (active_branch wfes b) BranchState.claimed_at)
  claim_base wfes none =
      and_then wfes.claimed_at λ at. map_opt (λ node. (node, at)) wfes.current_node

  pub claim_timeout_due : Wfd → Wfes → Instant → Option Text → Result Failure Bool
  unfolding claim_base later
  claim_timeout_due wfd wfes now branch =
      if is_terminal_class wfes.status then ok false else elim (claim_base wfes branch) [
        | none ↦ ok false
        | some (node_key, claimed_at) ↦
            elim (and_then (lookup node_key wfd.nodes) NodeDef.claim_timeout) [
              | none ↦ ok false
              | some after ↦ parse_iso8601_duration after >>= λ seconds.
                  later claimed_at seconds >>= λ due. ok (leb due now)
            ]
      ]
