-- ===== src/Pipeline/Sla/Escalation.antt =====
-- crates/wfe-core/src/v22/pipeline.rs, `next_escalation`: the steps of an escalation fire in their
-- order, each once for each entry to the node.
use agnoflow_engine.Prelude.{
  ℕ, suc, ◌+◌, ◌-◌, ◌*◌, ℤ, pos, negsuc, ◌≤◌, ◌<◌, ◌≡◌, ◌≢◌, refl, sym, ap, subst, ◌∙◌, true, false,
  Option, none, some, List, [], ◌∷◌, ◌++◌, inl, inr, ◌⊎◌, Memᴰ, mem-any, ltb, leb, ◌==◌, ==_iff,
  ==_refl, arith, Bool-cases, Option-cases, rfind-append, get_elem?, is_some, lookup, Text,
  text_eq_refl, ok, ◌>>=◌, >>=-eq-ok,
}
use agnoflow_engine.Types.Actor.{Instant}
use agnoflow_engine.Types.Wfah.{Wfah, WfahEntry}
use agnoflow_engine.Types.Wfd.{EscalationStep, NodeDef, Wfd}
use agnoflow_engine.Types.Wfes.{Wfes}
use agnoflow_engine.Duration.{parse_iso8601_duration}
use agnoflow_engine.Ledger.Kind.{escalation_marker, skipped_escalation_marker}
use agnoflow_engine.Access.Grants.{node_entered_at}
use agnoflow_engine.Pipeline.{is_terminal_class}
use agnoflow_engine.Pipeline.Rows.{active_branch}
use agnoflow_engine.Pipeline.Sla.{
  EscalationForecast, nanos, clock_base, settles, settled, first_open, later, forecast, open_step,
  next_escalation,
}

-- the step `k` of the list, counted from `idx`, is open, and those before it are settled
abbrev FirstOpen : Wfah → Text → Instant → ℕ → List EscalationStep → ℕ → EscalationStep → Type 0
FirstOpen wfah node_key entered idx steps n step =
    (k : ℕ) × (n ≡ idx + k)
    × (get_elem? steps k ≡ some step)
    × (settled wfah node_key entered n ≡ false)
    × ((j : ℕ) → idx ≤ j → j < n → settled wfah node_key entered j ≡ true)

-- the instant that lies so many seconds behind another, or before it
abbrev pub After : Instant → ℤ → Instant → Type 0
After at (pos seconds) due = due ≡ at + seconds * nanos
After at (negsuc before) due = due + (before + 1) * nanos ≡ at

earlier :
    (wfah : Wfah) (node_key : Text) (entered : Instant) (idx : ℕ) {n : ℕ}
    → settled wfah node_key entered idx ≡ true
    → ((j : ℕ) → idx + 1 ≤ j → j < n → settled wfah node_key entered j ≡ true)
    → (j : ℕ) → idx ≤ j
    → j < n
    → settled wfah node_key entered j ≡ true
earlier wfah node_key entered idx t before j lo hi = elim (Bool-cases (idx == j)) [
  | inl e ↦ rw (← (==_iff idx j).0 e) t
  | inr f ↦
      before j
        (let ne : idx ≢ j = λ e. absurd (let g = rw (e, ==_refl j) at f in cc) in omega arith) hi
]

first_open_sound :
    (wfah : Wfah) (node_key : Text) (entered : Instant) (idx : ℕ) (steps : List EscalationStep)
    {n : ℕ} {step : EscalationStep}
    → first_open wfah node_key entered idx steps ≡ some (n, step)
    → FirstOpen wfah node_key entered idx steps n step
unfolding first_open
first_open_sound wfah node_key entered idx [] h = absurd (cc)
first_open_sound wfah node_key entered idx (s ∷ steps) {n} {step} h =
    elim (Bool-cases (settled wfah node_key entered idx)) [
      | inl t ↦
          let (k, e, g, o, before) =
            first_open_sound wfah node_key entered (idx + 1) steps (rw (t, first_open) at h) in
          (suc k, omega arith, g, o, λ j lo hi. earlier wfah node_key entered idx t before j lo hi)
      | inr f ↦
          let q : some (idx, s) ≡ some (n, step) = rw (f, first_open) at h in
          let q1 : idx ≡ n = cc in
          let q2 : s ≡ step = cc in
          (0, omega arith, ap some q2, rw (← q1) f, λ j lo hi. absurd (omega arith))
    ]

entered_snoc :
    (w : Wfah) (row : WfahEntry)
    → row.to_node ≡ none
    → node_entered_at (w ++ row ∷ []) ≡ node_entered_at w
unfolding node_entered_at
entered_snoc w row still =
    rw (rfind-append (λ e. is_some (WfahEntry.to_node e)) w (row ∷ []), still)

settles_written :
    (node_key : Text) (entered : Instant) (idx : ℕ) (row : WfahEntry)
    → (row.action ≡ escalation_marker node_key idx)
      ⊎ (row.action ≡ skipped_escalation_marker node_key idx)
    → entered ≤ row.applied_at
    → settles node_key entered idx row ≡ true
unfolding settles
settles_written node_key entered idx row (inl e) late =
    rw (e, settles, text_eq_refl (escalation_marker node_key idx)) (ground arith)
settles_written node_key entered idx row (inr e) late =
    rw (e, settles, text_eq_refl (skipped_escalation_marker node_key idx)) (ground arith)

-- The row of an escalation leaves the instance's clock where it is.
pub clock_base-escalation_row :
    (wfes : Wfes) (row : WfahEntry) (branch : Option Text)
    → row.to_node ≡ none
    → clock_base (record wfes { wfah = wfes.wfah ++ row ∷ [] }) branch ≡ clock_base wfes branch
unfolding clock_base active_branch
clock_base-escalation_row wfes row none still = rw (entered_snoc wfes.wfah row still)
clock_base-escalation_row wfes row (some b) still = refl

module _ (max_instant : Instant) (wfd : Wfd) where
  -- what a forecast says: the step is the first open one of the node where the clock runs, and its
  -- time is counted from the entry to that node
  pub record Forecasts (wfes : Wfes) (now : Instant) (branch : Option Text) (f : EscalationForecast)
      : Type 0 where
    pub node_key : Text
    pub node : NodeDef
    pub step : EscalationStep
    pub seconds : ℤ
    pub running : is_terminal_class wfes.status ≡ false
    pub base : clock_base wfes branch ≡ some (node_key, f.entered_at)
    pub known : lookup node_key wfd.nodes ≡ some node
    pub at_index : get_elem? node.escalation f.step_idx ≡ some step
    pub is_open : settled wfes.wfah node_key f.entered_at f.step_idx ≡ false
    pub in_order : (j : ℕ) → j < f.step_idx → settled wfes.wfah node_key f.entered_at j ≡ true
    pub duration : parse_iso8601_duration step.after ≡ ok seconds
    pub due : After f.entered_at seconds f.deadline
    pub when_due : f.overdue ≡ leb f.deadline now

  later_sound :
      (at : ℕ) (seconds : ℤ) {due : Instant}
      → later max_instant at seconds ≡ ok due
      → After at seconds due
  unfolding later
  later_sound at (pos seconds) {due} h =
      elim (Bool-cases (ltb max_instant (at + seconds * nanos))) [
        | inl t ↦ absurd (let h' = rw (t, later) at h in cc)
        | inr f ↦
            let q : ok (at + seconds * nanos) ≡ ok due = rw (f, later) at h in
            let e : at + seconds * nanos ≡ due = cc in sym e
      ]
  later_sound at (negsuc before) {due} h = elim (Bool-cases (ltb at ((before + 1) * nanos))) [
    | inl t ↦ absurd (let h' = rw (t, later) at h in cc)
    | inr f ↦
        let q : ok (at - (before + 1) * nanos) ≡ ok due = rw (f, later) at h in
        let e : at - (before + 1) * nanos ≡ due = cc in
        let le : (before + 1) * nanos ≤ at = ground arith in rw (← e) (omega arith)
  ]

  abbrev forecast_of : Instant → Instant → ℕ → Instant → EscalationForecast
  forecast_of now entered idx due = record {
    step_idx = idx;
    entered_at = entered;
    deadline = due;
    overdue = leb due now;
  }

  forecast_sound :
      (now entered : Instant) (idx : ℕ) (step : EscalationStep) {f : EscalationForecast}
      → forecast max_instant now entered (idx, step) ≡ ok (some f)
      → (seconds : ℤ) × (parse_iso8601_duration step.after ≡ ok seconds)
        × (due : Instant) × After entered seconds due
        × (f ≡ forecast_of now entered idx due)
  unfolding forecast
  forecast_sound now entered idx step {f} h =
      let (seconds, e, h1) =
        >>=-eq-ok (parse_iso8601_duration step.after)
          (λ seconds. later max_instant entered seconds >>= λ due.
            ok (some (forecast_of now entered idx due)))
          h in
      let (due, e1, h2) =
        >>=-eq-ok (later max_instant entered seconds)
          (λ due. ok (some (forecast_of now entered idx due))) h1 in
      let q : f ≡ forecast_of now entered idx due = cc in
      (seconds, e, due, later_sound entered seconds e1, q)

  -- the forecast at a given node and entry
  step_case :
      (wfes : Wfes) (now : Instant) (branch : Option Text) (f : EscalationForecast)
      (node_key : Text) (entered : Instant) (node : NodeDef) (idx : ℕ) (step : EscalationStep)
      → is_terminal_class wfes.status ≡ false
      → clock_base wfes branch ≡ some (node_key, entered)
      → lookup node_key wfd.nodes ≡ some node
      → first_open wfes.wfah node_key entered 0 node.escalation ≡ some (idx, step)
      → forecast max_instant now entered (idx, step) ≡ ok (some f)
      → Forecasts wfes now branch f
  step_case wfes now branch f node_key entered node idx step running base known first h =
      let (k, e, at, o, before) =
        first_open_sound wfes.wfah node_key entered 0 node.escalation first in
      let (seconds, d, due, after, q) = forecast_sound now entered idx step h in
      let here : idx ≡ k = omega arith in
      subst (Forecasts wfes now branch) (sym q) record {
        node_key = node_key;
        node = node;
        step = step;
        seconds = seconds;
        running = running;
        base = base;
        known = known;
        at_index = rw here at;
        is_open = o;
        in_order = λ j lt. before j (omega arith) lt;
        duration = d;
        due = after;
        when_due = refl;
      }

  abbrev StepOf : Wfes → Text → Instant → ℕ × EscalationStep → Type 0
  StepOf wfes node_key entered s =
      (node : NodeDef) × (lookup node_key wfd.nodes ≡ some node)
      × (first_open wfes.wfah node_key entered 0 node.escalation ≡ some s)

  open_step_sound :
      (wfes : Wfes) (node_key : Text) (entered : Instant) (s : ℕ × EscalationStep)
      → open_step max_instant wfd wfes (node_key, entered) ≡ some s
      → StepOf wfes node_key entered s
  unfolding open_step
  open_step_sound wfes node_key entered s h = elim (Option-cases (lookup node_key wfd.nodes)) [
    | inl e ↦ absurd (let h' = rw (e, open_step) at h in cc)
    | inr (node, e) ↦ (node, e, rw (e, open_step) at h)
  ]

  -- A forecast names the first step of the node that has neither fired nor been passed over since the
  -- instance came there, and the instant at which that step's time is up.
  pub next_escalation_sound :
      (wfes : Wfes) (now : Instant) (branch : Option Text) (f : EscalationForecast)
      → next_escalation max_instant wfd wfes now branch ≡ ok (some f)
      → Forecasts wfes now branch f
  unfolding next_escalation
  next_escalation_sound wfes now branch f h = elim (Bool-cases (is_terminal_class wfes.status)) [
    | inl t ↦ absurd (let h' = rw (t, next_escalation) at h in cc)
    | inr r ↦ elim (Option-cases (clock_base wfes branch)) [
      | inl e ↦ absurd (let h' = rw (r, next_escalation, e) at h in cc)
      | inr ((node_key, entered), e) ↦
          elim (Option-cases (open_step max_instant wfd wfes (node_key, entered))) [
            | inl e1 ↦ absurd (let h' = rw (r, next_escalation, e, e1) at h in cc)
            | inr ((idx, step), e1) ↦
                let (node, known, first) = open_step_sound wfes node_key entered (idx, step) e1 in
                step_case wfes now branch f node_key entered node idx step r e known first
                  (rw (r, next_escalation, e, e1) at h)
          ]
    ]
  ]

  -- A step of whose firing or passing over the ledger has a row, not before the entry from which
  -- the clock runs, is not forecast again while it runs from this entry.
  pub settled_not_forecast :
      (wfes : Wfes) (now : Instant) (branch : Option Text) (f : EscalationForecast)
      (node_key : Text) (entered : Instant) (idx : ℕ) (row : WfahEntry)
      → Memᴰ row wfes.wfah
      → (row.action ≡ escalation_marker node_key idx)
        ⊎ (row.action ≡ skipped_escalation_marker node_key idx)
      → entered ≤ row.applied_at
      → clock_base wfes branch ≡ some (node_key, entered)
      → next_escalation max_instant wfd wfes now branch ≡ ok (some f)
      → f.step_idx ≢ idx
  unfolding settled
  settled_not_forecast wfes now branch f node_key entered idx row m written late base h same =
      let fc = next_escalation_sound wfes now branch f h in
      let q : some (fc.node_key, f.entered_at) ≡ some (node_key, entered) = sym fc.base ∙ base in
      let q1 : fc.node_key ≡ node_key = cc in
      let q2 : f.entered_at ≡ entered = cc in
      let closed : settled wfes.wfah node_key entered idx ≡ true =
        mem-any (settles node_key entered idx) wfes.wfah m
          (settles_written node_key entered idx row written late) in
      let opened : settled wfes.wfah node_key entered idx ≡ false =
        rw same at (rw q2 at (rw q1 at fc.is_open)) in
      absurd (let b = rw closed at opened in cc)
