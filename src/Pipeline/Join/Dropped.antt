-- ===== src/Pipeline/Join/Dropped.antt =====
-- crates/wfe-core/src/v22/pipeline.rs (`stage_parallel_markers`) and valid.rs: the branches that the end
-- of a fork drops, and what becomes of their rows.
use agnoflow_engine.Prelude.{
  ℕ, ◌+◌, ◌≡◌, refl, Bool, true, false, Bool-cases, inl, inr, Option, none, some, List, [], ◌∷◌,
  ◌++◌, Memᴰ, Text, text_eq, text_eq_sound, is_some, map, filter-mem, mem-append_left,
  mem-append_right,
}
use agnoflow_engine.Types.Json.{Json}
use agnoflow_engine.Types.Actor.{Instant}
use agnoflow_engine.Types.Wfah.{Wfah, WfahEntry, u32}
use agnoflow_engine.Types.Wfes.{BranchStatus, BranchState, Wfes}
use agnoflow_engine.Types.Host.{Host}
use agnoflow_engine.Outcome.{
  CommitOutcome, CollapseCause, terminal, failed, terminated, collapse_to, join_complete, move_to,
  stay_at, fork_to, branch_move_to, branch_arrived,
}
use agnoflow_engine.Ledger.Order.{Increasing, Increasing-before}
use agnoflow_engine.Ledger.Valid.{ValidRules, invalid_reason}
use agnoflow_engine.Ledger.Valid.Markers.{IsDrop, invalid_reason-dropped}
use agnoflow_engine.Pipeline.Join.{
  Trigger, Draft, Ending, number_rows, arrival_drafts, ending_drafts, collapse_of, cancelled_draft,
  superseded_draft, cancelled_branches, superseded_branches, is_sibling, is_quorum_collapse,
  stage_parallel_markers,
}

mem-map : {A B : Type 0} {x : A} (f : A → B) (xs : List A) → Memᴰ x xs → Memᴰ (f x) (map f xs)
mem-map f [] m = elim m [ ]
mem-map f (y ∷ ys) (Memᴰ.head e) = Memᴰ.head (rw e refl)
mem-map f (y ∷ ys) (Memᴰ.tail m) = Memᴰ.tail (mem-map f ys m)

-- a draft becomes a row of its action, about its branch
number_rows-mem :
    (wfah : Wfah) (now : Instant) (seq : ℕ) {d : Draft} (drafts : List Draft)
    → Memᴰ d drafts
    → (row : WfahEntry) × Memᴰ row (number_rows wfah now seq drafts)
      × (row.action ≡ d.0)
      × (row.branch_entry ≡ d.1)
unfolding number_rows
number_rows-mem wfah now seq [] m = elim m [ ]
number_rows-mem wfah now seq ((a, b, i) ∷ drafts) (Memᴰ.head e) =
    (_, Memᴰ.head refl, rw e refl, rw e refl)
number_rows-mem wfah now seq ((a, b, i) ∷ drafts) (Memᴰ.tail m) =
    let (row, k, p, q) = number_rows-mem wfah now (u32 (seq + 1)) drafts m in
    (row, Memᴰ.tail k, p, q)

-- The outcomes that end the fork of an instance, which is forked or not.
pub data EndsFork : Bool → CommitOutcome → Type 0 where
  ended : {r : Json} → EndsFork true (terminal r)
  broken : {r : Json} → EndsFork true (failed r)
  stopped : {r : Json} → EndsFork true (terminated r)
  collapsed :
      {forked : Bool} {from : Option Text} {node : Text} {cause : CollapseCause}
      → EndsFork forked (collapse_to from node cause)
  filled :
      {forked : Bool} {from : Text} {nodes : List Text} {next : CommitOutcome}
      → EndsFork forked (join_complete from true nodes next)

-- The join is filled while other branches are active.
pub data Quorum : CommitOutcome → Type 0 where
  quorum :
      {from : Text} {nodes : List Text} {next : CommitOutcome}
      → Quorum (join_complete from true nodes next)

collapse_ending :
    (forked : Bool) (from : Option Text) (node : Text) (cause : CollapseCause)
    → (how : Ending) × (collapse_of forked (collapse_to from node cause) ≡ some how)
unfolding collapse_of
collapse_ending forked from node CollapseCause.collapse = (_, refl)
collapse_ending forked from node CollapseCause.sent_back = (_, refl)

ending_of :
    {forked : Bool} {o : CommitOutcome}
    → EndsFork forked o
    → (how : Ending) × (collapse_of forked o ≡ some how)
unfolding collapse_of
ending_of ended = (_, refl)
ending_of broken = (_, refl)
ending_of stopped = (_, refl)
ending_of (collapsed {forked} {from} {node} {cause}) = collapse_ending forked from node cause
ending_of filled = (_, refl)

not-Quorum : (o : CommitOutcome) → ¬ Quorum o → is_quorum_collapse o ≡ false
not-Quorum (join_complete from true nodes next) h = absurd (h quorum)
not-Quorum (join_complete from false nodes next) h = refl
not-Quorum (terminal r) h = refl
not-Quorum (failed r) h = refl
not-Quorum (terminated r) h = refl
not-Quorum (collapse_to from node cause) h = refl
not-Quorum (move_to node) h = refl
not-Quorum (stay_at node) h = refl
not-Quorum (fork_to bs join rule) h = refl
not-Quorum (branch_move_to from node) h = refl
not-Quorum (branch_arrived from nodes) h = refl

sibling :
    (acting : Option Text) (b : BranchState)
    → ¬ (acting ≡ some b.branch_node)
    → is_sibling acting b ≡ true
sibling none b h = refl
sibling (some t) b h = elim (Bool-cases (text_eq b.branch_node t)) [
  | inl e ↦ absurd (h (rw (text_eq_sound b.branch_node t e) refl))
  | inr e ↦ rw e refl
]

module _ (host : Host) (wfes : Wfes) (trigger : Trigger) (outcome : CommitOutcome) (seq : ℕ)
    (now : Instant) where
  abbrev pub markers : List WfahEntry
  markers = stage_parallel_markers host wfes trigger outcome seq now

  -- The fork ends by this outcome, and the branch is one of those that it drops: another branch than
  -- the one that acts, and either active, or arrived where the join is not filled by a quorum.
  pub data Drops (b : BranchState) : Type 0 where
    cancels :
        EndsFork (is_some wfes.join_target) outcome
        → Memᴰ b wfes.branches
        → ¬ (trigger.branch ≡ some b.branch_node)
        → b.status ≡ BranchStatus.active
        → Drops b
    supersedes :
        EndsFork (is_some wfes.join_target) outcome
        → Memᴰ b wfes.branches
        → ¬ (trigger.branch ≡ some b.branch_node)
        → b.status ≡ BranchStatus.arrived
        → ¬ Quorum outcome
        → Drops b

  abbrev pub DropRow : BranchState → WfahEntry → Type 0
  DropRow b row = IsDrop row × (row.branch_entry ≡ some b.entry_node)

  staged :
      {d : Draft} {how : Ending}
      → collapse_of (is_some wfes.join_target) outcome ≡ some how
      → Memᴰ d (ending_drafts host wfes trigger outcome (some how))
      → (row : WfahEntry) × Memᴰ row markers × (row.action ≡ d.0) × (row.branch_entry ≡ d.1)
  unfolding stage_parallel_markers
  staged {d} {how} e m =
      let first = arrival_drafts host wfes trigger outcome now in
      number_rows-mem wfes.wfah now seq {d = d}
        (first
          ++ ending_drafts host wfes trigger outcome
              (collapse_of (is_some wfes.join_target) outcome))
        (mem-append_right first _ (rw e m))

  is_cancelled :
      {b : BranchState}
      → Memᴰ b wfes.branches
      → ¬ (trigger.branch ≡ some b.branch_node)
      → b.status ≡ BranchStatus.active
      → Memᴰ b (cancelled_branches wfes trigger.branch)
  unfolding cancelled_branches
  is_cancelled {b} m other s =
      filter-mem _ wfes.branches m (rw (sibling trigger.branch b other, s) refl)

  is_superseded :
      {b : BranchState}
      → Memᴰ b wfes.branches
      → ¬ (trigger.branch ≡ some b.branch_node)
      → b.status ≡ BranchStatus.arrived
      → ¬ Quorum outcome
      → Memᴰ b (superseded_branches wfes trigger.branch outcome)
  unfolding superseded_branches
  is_superseded {b} m other s q =
      filter-mem _ wfes.branches m
        (rw (sibling trigger.branch b other, s, not-Quorum outcome q) refl)

  drop_row : {b : BranchState} → Drops b → (row : WfahEntry) × Memᴰ row markers × DropRow b row
  unfolding ending_drafts cancelled_draft superseded_draft text_eq
  drop_row {b} (cancels ends m other s) =
      let (how, e) = ending_of ends in
      let gone = cancelled_branches wfes trigger.branch in
      let (row, k, a, p) = staged e (
        Memᴰ.tail (
          mem-append_left (map (cancelled_draft host wfes trigger how) gone)
            (map (superseded_draft host wfes trigger how)
              (superseded_branches wfes trigger.branch outcome))
            (mem-map (cancelled_draft host wfes trigger how) gone (is_cancelled m other s)))) in
      (row, k, (rw a refl, p))
  drop_row {b} (supersedes ends m other s q) =
      let (how, e) = ending_of ends in
      let gone = superseded_branches wfes trigger.branch outcome in
      let (row, k, a, p) = staged e (
        Memᴰ.tail (
          mem-append_right
            (map (cancelled_draft host wfes trigger how) (cancelled_branches wfes trigger.branch))
            (map (superseded_draft host wfes trigger how) gone)
            (mem-map (superseded_draft host wfes trigger how) gone (is_superseded m other s q)))) in
      (row, k, (rw a refl, p))

  -- When an outcome ends a fork, the ledger's rows of each branch that it drops lose their force, where
  -- the ledger's numbers grow: of the branches but the acting one, those still active and, unless a
  -- quorum fills the join, those that had arrived.
  pub dropped-invalid :
      (rules : ValidRules) (b : BranchState) (row : WfahEntry)
      → Increasing (wfes.wfah ++ markers)
      → Drops b
      → Memᴰ row wfes.wfah
      → row.branch_entry ≡ some b.entry_node
      → is_some (invalid_reason (wfes.wfah ++ markers) rules row) ≡ true
  dropped-invalid rules b row grows d m e =
      let (marker, k, (drop, at)) = drop_row d in
      invalid_reason-dropped (wfes.wfah ++ markers) rules row marker b.entry_node
        (mem-append_right wfes.wfah markers k) e at (Increasing-before wfes.wfah markers grows m k)
        drop
