-- ===== src/Pipeline/Rows/Numbered.antt =====
-- crates/wfe-core/src/v22/pipeline.rs: the staged rows continue the ledger, and a row's branch label
-- is whole.
use agnoflow_engine.Prelude.{
  ℕ, ◌+◌, ◌^◌, ◌≤◌, ◌<◌, ◌≡◌, refl, Option, none, some, List, [], ◌∷◌, ◌++◌, append_assoc,
  append-nil, All, All-snoc, All-mem, All-map, subst, arith, Option-cases, inl, inr, Text, length,
  last?, last?-none, last?-mem, is_some, map_opt, and_then,
}
use agnoflow_engine.Types.Json.{Json}
use agnoflow_engine.Types.Actor.{Instant, Actor}
use agnoflow_engine.Types.Wfah.{Wfah, WfahEntry, u32}
use agnoflow_engine.Types.Wfes.{BranchState, Wfes}
use agnoflow_engine.Ledger.Order.{Increasing, Increasing-snoc, last-max}
use agnoflow_engine.Ledger.Valid.{round_of_opt}
use agnoflow_engine.Pipeline.Rows.{
  next_seq, stage_rows_from, stage_rows, active_branch, branch_round_of, branch_label,
}

abbrev staged_row : ℕ → ℕ → Text → Json → Instant → Option Text → Option ℕ → Actor → WfahEntry
staged_row base i a x now b r actor = record {
  seq = u32 (base + i);
  action = a;
  actor = actor;
  input = some x;
  applied_at = now;
  from_node = none;
  to_node = none;
  branch_entry = b;
  branch_round = r;
}

-- rows from the `i`th on go behind a ledger whose numbers stay under theirs
stage_rows_from-Increasing :
    (w : Wfah) (base i : ℕ) (rows : List (Text × Json)) (now : Instant) (b : Option Text)
    (r : Option ℕ) (actor : Actor)
    → Increasing w
    → All (λ e. WfahEntry.seq e < base + i) w
    → base + i + length rows < 2 ^ 32
    → Increasing (w ++ stage_rows_from base i rows now b r actor)
unfolding stage_rows_from
stage_rows_from-Increasing w base i [] now b r actor inc below bound = rw (append-nil w) inc
stage_rows_from-Increasing w base i ((a, x) ∷ rows) now b r actor inc below bound =
    let row : WfahEntry = staged_row base i a x now b r actor in
    let rest = stage_rows_from base (i + 1) rows now b r actor in
    let wraps : u32 (base + i) ≡ base + i = omega arith in
    let ih =
      stage_rows_from-Increasing (w ++ row ∷ []) base (i + 1) rows now b r actor
        (Increasing-snoc w row inc (rw wraps below))
        (All-snoc (λ e. WfahEntry.seq e < base + (i + 1)) w row
          (All-map (λ e. WfahEntry.seq e < base + i) (λ e. WfahEntry.seq e < base + (i + 1)) w
            (λ e lt. omega arith) below)
          (rw wraps (omega arith)))
        (omega arith) in
    subst Increasing (append_assoc w (row ∷ []) rest) ih

-- The rows that a transition stages behind a ledger whose sequence numbers grow keep them growing,
-- as long as the numbers of the new rows fit into 32 bits.
pub stage_rows-Increasing :
    (rows : List (Text × Json)) (wfes : Wfes) (now : Instant) (b : Option Text) (r : Option ℕ)
    (actor : Actor)
    → Increasing wfes.wfah
    → All (λ e. WfahEntry.seq e + 1 + length rows < 2 ^ 32) wfes.wfah
    → 1 + length rows < 2 ^ 32
    → Increasing (wfes.wfah ++ stage_rows rows wfes now b r actor)
unfolding stage_rows next_seq
stage_rows-Increasing rows wfes now b r actor inc bound short =
    elim (Option-cases (last? wfes.wfah)) [
      | inl e ↦
          stage_rows_from-Increasing wfes.wfah (next_seq wfes.wfah) 0 rows now b r actor inc
            (rw (last?-none wfes.wfah e) tt) (rw (e, next_seq) (omega arith))
      | inr (x, e) ↦
          let top =
            All-mem (λ e. WfahEntry.seq e + 1 + length rows < 2 ^ 32) wfes.wfah bound
              (last?-mem wfes.wfah e) in
          let next : next_seq wfes.wfah ≡ WfahEntry.seq x + 1 = rw (e, next_seq) (omega arith) in
          stage_rows_from-Increasing wfes.wfah (next_seq wfes.wfah) 0 rows now b r actor inc
            (rw next (
              All-map (λ y. WfahEntry.seq y ≤ WfahEntry.seq x)
                (λ y. WfahEntry.seq y < WfahEntry.seq x + 1 + 0) wfes.wfah (λ y le. omega arith)
                (last-max wfes.wfah x inc e)))
            (rw next (omega arith))
    ]

-- A row has a round exactly when it has a branch.
pub branch_label_whole :
    (wfes : Wfes) (branch : Option Text)
    → is_some (branch_label wfes branch).1 ≡ is_some (branch_label wfes branch).0
unfolding branch_label branch_round_of round_of_opt
branch_label_whole wfes branch =
    elim (Option-cases (map_opt BranchState.entry_node (and_then branch (active_branch wfes)))) [
      | inl e ↦ rw e refl
      | inr (x, e) ↦ rw e refl
    ]
