-- ===== src/Access/Grants/Opened.antt =====
-- crates/wfe-core/src/v22/grants.rs, `open_grants`, against the rows that pipeline.rs writes when a
-- step of an escalation fires or is passed over.
use agnoflow_engine.Prelude.{
  ℕ, suc, ◌+◌, ◌≡◌, ◌⊎◌, refl, sym, true, some, List, [], ◌∷◌, Memᴰ, Memᴰ-cases, inl, inr, arith,
  ◌==◌, ==_iff, opt_eq_iff, &&_split, Bool-cases, Option-cases, any, any-mem, get_elem?, opt_eq,
  Text, lookup,
}
use agnoflow_engine.Types.Wfah.{Wfah, WfahEntry}
use agnoflow_engine.Types.Wfd.{CaGrantRule, EscalationStep, NodeDef, Wfd}
use agnoflow_engine.Ledger.Kind.{escalation_marker, skipped_escalation_marker}
use agnoflow_engine.Access.Grants.{
  node_entered_at, fired_step, since, fires, fired_grants, open_grants,
}

-- a step of the list, counted from `i`, that a row fires, and its grant
abbrev StepOf : Wfah → Text → ℕ → List EscalationStep → CaGrantRule → Type 0
StepOf wfah node_key i steps rule =
    (k : ℕ) × (step : EscalationStep) × (get_elem? steps k ≡ some step)
    × (EscalationStep.grant step ≡ rule)
    × (any (fires wfah node_key (i + k)) wfah ≡ true)

mem-fired_grants :
    (wfah : Wfah) (node_key : Text) (i : ℕ) (steps : List EscalationStep) {rule : CaGrantRule}
    → Memᴰ rule (fired_grants wfah node_key i steps)
    → StepOf wfah node_key i steps rule
unfolding fired_grants
mem-fired_grants wfah node_key i [] m = elim m [ ]
mem-fired_grants wfah node_key i (s ∷ steps) {rule} m =
    let later : Memᴰ rule (fired_grants wfah node_key (1 + i) steps)
        → StepOf wfah node_key i (s ∷ steps) rule =
      λ n.
        let (k, step, e, g, t) = mem-fired_grants wfah node_key (1 + i) steps n in
        (suc k, step, e, g, rw ((let e : i + suc k ≡ 1 + i + k = omega arith in e)) t) in
    elim (Bool-cases (any (fires wfah node_key i) wfah)) [
      | inl u ↦ elim (Memᴰ-cases (rw (u, fired_grants) at m)) [
        | inl q ↦ (0, s, refl, sym q, rw ((let e : i + 0 ≡ i = omega arith in e)) u)
        | inr n ↦ later n
      ]
      | inr f ↦ later (rw (f, fired_grants) at m)
    ]

-- The row stands in the ledger, not before the node's entry, and names this step of the node: as
-- fired, or as passed over by an administrator.
pub record Fired (wfah : Wfah) (node_key : Text) (idx : ℕ) : Type 0 where
  pub row : WfahEntry
  pub member : Memᴰ row wfah
  pub written :
      (row.action ≡ escalation_marker node_key idx)
      ⊎ (row.action ≡ skipped_escalation_marker node_key idx)
  pub in_time : since (node_entered_at wfah) row.applied_at ≡ true

fires_parts :
    (wfah : Wfah) (node_key : Text) (idx : ℕ) (row : WfahEntry)
    → fires wfah node_key idx row ≡ true
    → (since (node_entered_at wfah) row.applied_at ≡ true)
      × (fired_step node_key row.action ≡ some idx)
unfolding fires
fires_parts wfah node_key idx row h =
    let (a, b) =
      &&_split (since (node_entered_at wfah) row.applied_at)
        (opt_eq (λ a b. a == b) (fired_step node_key row.action) (some idx)) h in
    (a, (opt_eq_iff (λ a b. a == b) ==_iff (fired_step node_key row.action) (some idx)).0 b)

-- A grant that is open on a node is the grant of a step of this node, and the ledger has a row not
-- before the entry that names the node and the step.
pub open_grants_only :
    (wfd : Wfd) (wfah : Wfah) (node_key : Text) (rule : CaGrantRule)
    → Memᴰ rule (open_grants wfd wfah node_key)
    → (node : NodeDef) × (lookup node_key wfd.nodes ≡ some node)
      × (idx : ℕ) × (step : EscalationStep) × (get_elem? node.escalation idx ≡ some step)
      × (step.grant ≡ rule)
      × (row : WfahEntry) × Memᴰ row wfah
      × (fired_step node_key row.action ≡ some idx)
      × (since (node_entered_at wfah) row.applied_at ≡ true)
unfolding open_grants
open_grants_only wfd wfah node_key rule m = elim (Option-cases (lookup node_key wfd.nodes)) [
  | inl e ↦ elim (rw (e, open_grants) at m) [ ]
  | inr (node, e) ↦
      let (idx, step, s, g, t) =
        mem-fired_grants wfah node_key 0 (NodeDef.escalation node) (rw (e, open_grants) at m) in
      let (row, r, q) =
        any-mem (fires wfah node_key idx) wfah
          (rw ((let q : idx ≡ 0 + idx = omega arith in q)) t) in
      let (q1, q2) = fires_parts wfah node_key idx row q in
      (node, e, idx, step, s, g, row, r, q2, q1)
]
