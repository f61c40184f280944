-- ===== src/Sim/Visited.antt =====
-- crates/wfe/src/sim.rs: the nodes that an instance has visited.
use agnoflow_engine.Prelude.{
  ℕ, ◌≡◌, refl, sym, Memᴰ-cases, Bool, none, List, [], ◌∷◌, ◌++◌, Memᴰ, inl, inr, any, any-mem,
  filter, map, mem-append_left, mem-append_right, text_eq, text_eq_sound, Text, Bool-cases,
  Option-cases, if◌then◌else◌, ok, >>=-eq-ok, subst,
}
use agnoflow_engine.Types.Actor.{Instant}
use agnoflow_engine.Types.Wfah.{extended}
use agnoflow_engine.Types.Wfd.{Wfd}
use agnoflow_engine.Types.Wfes.{BranchState, branch_is_active}
use agnoflow_engine.Types.Commit.{NewWfe, TransitionCommit}
use agnoflow_engine.Pipeline.Seat.{Engine}
use agnoflow_engine.Pipeline.Start.{StartRequest, start}
use agnoflow_engine.Outcome.{Resolution, resolution}
use agnoflow_engine.Sim.{
  SimState, from_new_wfe, apply_branch_outcome, apply_commit, visit, reached, active_nodes,
  clear_awaited_call,
}
use agnoflow_engine.Sim.Steps.{begin, detach}
use agnoflow_engine.Sim.Gates.{advance_sound, carry_on_sound, call_return_sound, attach_sound}
use agnoflow_engine.Sim.Reach.{Step, Reach, advanced, returned, uploaded, removed, begun, followed}

visit-seen : {n : Text} (ns seen : List Text) → Memᴰ n seen → Memᴰ n (visit ns seen)
unfolding visit
visit-seen [] seen m = m
visit-seen (x ∷ ns) seen m = elim (Bool-cases (any (text_eq x) seen)) [
  | inl t ↦ rw (t, visit) (visit-seen ns seen m)
  | inr f ↦ rw (f, visit) (visit-seen ns (seen ++ x ∷ []) (mem-append_left seen (x ∷ []) m))
]

visit-mem : {n : Text} (ns seen : List Text) → Memᴰ n ns → Memᴰ n (visit ns seen)
unfolding visit
visit-mem [] seen m = elim m [ ]
visit-mem (x ∷ ns) seen (Memᴰ.tail m) =
    visit-mem ns (if any (text_eq x) seen then seen else seen ++ x ∷ []) m
visit-mem (x ∷ ns) seen (Memᴰ.head e) = elim (Bool-cases (any (text_eq x) seen)) [
  | inl t ↦
      let (y, m, q) = any-mem (text_eq x) seen t in
      rw (t, visit, e, text_eq_sound x y q) (visit-seen ns seen m)
  | inr f ↦
      rw (f, visit, e)
        (visit-seen ns (seen ++ x ∷ []) (mem-append_right seen (x ∷ []) (Memᴰ.head refl)))
]

map-filter :
    {n : Text} (p : BranchState → Bool) (bs : List BranchState)
    → Memᴰ n (map BranchState.branch_node (filter p bs))
    → Memᴰ n (map BranchState.branch_node bs)
map-filter p [] m = elim m [ ]
map-filter p (b ∷ bs) m = elim (Bool-cases (p b)) [
  | inr f ↦ Memᴰ.tail (map-filter p bs (rw f at m))
  | inl t ↦ elim (Memᴰ-cases (rw t at m)) [
    | inl e ↦ Memᴰ.head e
    | inr k ↦ Memᴰ.tail (map-filter p bs k)
  ]
]

-- where the instance stands, and where its branches stand, it has been
abbrev pub Visited : SimState → Type 0
Visited s = (n : Text) → Memᴰ n (reached s.current_node s.branches) → Memᴰ n s.visited_nodes

Visited-commit :
    (s : SimState) (commit : TransitionCommit) (now : Instant) → Visited (apply_commit s commit now)
unfolding apply_commit
Visited-commit s commit now n m =
    let staged : SimState = record s {
      dynctx = commit.new_dynctx;
      wfah = extended s.wfah commit.wfah_entries;
    } in
    let b = apply_branch_outcome staged commit.outcome now in
    visit-mem (reached (Resolution.node (resolution commit.outcome)) b.branches) b.visited_nodes m

Visited-new : (new : NewWfe) → Visited (from_new_wfe new)
unfolding from_new_wfe
Visited-new new n m = elim (Option-cases (Resolution.node (resolution new.outcome))) [
  | inl e ↦ elim (rw e at m) [ ]
  | inr (x, e) ↦ rw e (rw e at m)
]

waits_where_reached :
    (s : SimState) {n : Text} → Memᴰ n (active_nodes s) → Memᴰ n (reached s.current_node s.branches)
unfolding active_nodes
waits_where_reached s m = elim (Option-cases s.current_node) [
  | inr (x, e) ↦ rw e (
      mem-append_left (x ∷ []) (map BranchState.branch_node s.branches) (rw (e, active_nodes) at m))
  | inl e ↦ rw e (
      map-filter (λ b. branch_is_active (BranchState.status b)) s.branches
        (rw (e, active_nodes) at m))
]

module _ (engine : Engine) (wfd : Wfd) (max_bytes : Text → ℕ) where
  Visited-Step : {s t : SimState} → Visited s → Step engine wfd max_bytes s t → Visited t
  unfolding detach clear_awaited_call
  Visited-Step {s} {t} v (advanced now req h) =
      let (_, _, k) = advance_sound engine wfd now s t req h in
      let (commit, _, q) = carry_on_sound engine wfd now s req k in
      subst Visited q (Visited-commit s commit now)
  Visited-Step {s} v (returned now status result h) =
      let (call, commit, _, q) = call_return_sound engine wfd now s status result h in
      subst Visited q (Visited-commit s commit now)
  Visited-Step {s} v (uploaded a h) = subst Visited (attach_sound max_bytes wfd s a h) v
  Visited-Step {s} v (removed group item e) = subst Visited (sym e) v

  Visited-begun :
      (now : Instant) (req : StartRequest) {s : SimState}
      → begin engine wfd now req ≡ ok s
      → Visited s
  unfolding begin
  Visited-begun now req {s} h =
      let (new, _, k) = >>=-eq-ok (start engine wfd now (record req { deadline = none })) _ h in
      let q : from_new_wfe new ≡ s = cc in subst Visited q (Visited-new new)

  Visited-Reach : {s : SimState} → Reach engine wfd max_bytes s → Visited s
  Visited-Reach (begun now req h) = Visited-begun now req h
  Visited-Reach (followed r step) = Visited-Step (Visited-Reach r) step

  -- Whatever steps a simulation has taken, each node where the instance waits is among the nodes that
  -- it has visited, which the menu of a send-back is drawn from.
  pub active_nodes-visited :
      {s : SimState} (n : Text)
      → Reach engine wfd max_bytes s
      → Memᴰ n (active_nodes s)
      → Memᴰ n s.visited_nodes
  active_nodes-visited {s} n r m = Visited-Reach r n (waits_where_reached s m)
