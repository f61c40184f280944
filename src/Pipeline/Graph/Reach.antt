-- ===== src/Pipeline/Graph/Reach.antt =====
-- crates/wfe-core/src/v22/pipeline.rs: the walk of `fork_subgraph` ends, and finds the nodes that a
-- branch can walk to, and no others.
use agnoflow_engine.Prelude.{
  ℕ, zero, suc, ◌+◌, ◌≤◌, ◌≡◌, ◌≢◌, ◌⊎◌, ◌↔◌, refl, ap, sym, inl, inr, arith, false, some, List, [],
  ◌∷◌, ◌++◌, Memᴰ, Memᴰ-cases, Bool-cases, Text, Dict, text_eq, text_eq_sound, text_eq_refl,
  text_eq_iff, opt_eq, opt_eq_iff, length, length-append, mem-append, mem-append_left,
  mem-append_right,
}
use agnoflow_engine.Types.Wfd.{ActionDef, WftTarget, Wfd}
use agnoflow_engine.Pipeline.Graph.{
  subgraph_edges, edges_from, enqueue, join_node, expand, walk, all_edges, rounds, fork_subgraph,
}
use agnoflow_engine.Pipeline.Graph.Queue.{
  enqueue-All, unseen, enqueue-measure, enqueue-seen, enqueue-queue, enqueue-fresh, unseen_none,
}

-- The nodes of a fork: the entries of its branches, and what an action leads to from a node of the
-- fork that is not the join.
pub data Walk (wfd : Wfd) (entries : List Text) (join : WftTarget) : Text → Type 0 where
  entry : {n : Text} → Memᴰ n entries → Walk wfd entries join n
  step :
      {n m : Text} (k : Text) (a : ActionDef)
      → Walk wfd entries join n
      → join_node join ≢ some n
      → Memᴰ (k, a) wfd.actions
      → a.from ≡ n
      → Memᴰ m (subgraph_edges a.wft)
      → Walk wfd entries join m

mem-edges_from :
    (actions : Dict ActionDef) (n : Text) {m : Text}
    → Memᴰ m (edges_from actions n)
    → (k : Text) × (a : ActionDef) × Memᴰ (k, a) actions
      × (a.from ≡ n)
      × Memᴰ m (subgraph_edges a.wft)
unfolding edges_from
mem-edges_from [] n h = elim h [ ]
mem-edges_from ((k, a) ∷ actions) n h = elim (Bool-cases (text_eq (ActionDef.from a) n)) [
  | inl t ↦ elim (mem-append (subgraph_edges a.wft) (edges_from actions n) (rw t at h)) [
    | inl here ↦ (k, a, Memᴰ.head refl, text_eq_sound a.from n t, here)
    | inr there ↦ let (j, b, m, e, r) = mem-edges_from actions n there in (j, b, Memᴰ.tail m, e, r)
  ]
  | inr f ↦ let (j, b, m, e, r) = mem-edges_from actions n (rw f at h) in (j, b, Memᴰ.tail m, e, r)
]

edges_from-mem :
    (actions : Dict ActionDef) {k n m : Text} (a : ActionDef)
    → Memᴰ (k, a) actions
    → a.from ≡ n
    → Memᴰ m (subgraph_edges a.wft)
    → Memᴰ m (edges_from actions n)
unfolding edges_from
edges_from-mem [] a h e r = elim h [ ]
edges_from-mem ((j, b) ∷ actions) {k} {n} a h e r =
    elim (Bool-cases (text_eq (ActionDef.from b) n)) [
      | inl t ↦ elim (Memᴰ-cases h) [
        | inl same ↦ rw t (
            mem-append_left (subgraph_edges b.wft) (edges_from actions n)
              (rw (← ap (λ (kv : Text × ActionDef). ActionDef.wft kv.1) same) r))
        | inr there ↦ rw t (
            mem-append_right (subgraph_edges b.wft) (edges_from actions n)
              (edges_from-mem actions a there e r))
      ]
      | inr f ↦ elim (Memᴰ-cases h) [
        | inl same ↦ absurd (
            let t =
              rw
                (
                  ← e,
                  ← ap (λ (kv : Text × ActionDef). ActionDef.from kv.1) same,
                  text_eq_refl a.from,
                )
                at f in
            cc)
        | inr there ↦ rw f (edges_from-mem actions a there e r)
      ]
    ]

edges_from-all :
    (actions : Dict ActionDef) (n : Text) {m : Text}
    → Memᴰ m (edges_from actions n)
    → Memᴰ m (all_edges actions)
unfolding edges_from all_edges
edges_from-all [] n h = elim h [ ]
edges_from-all ((k, a) ∷ actions) n h = elim (Bool-cases (text_eq (ActionDef.from a) n)) [
  | inl t ↦ elim (mem-append (subgraph_edges a.wft) (edges_from actions n) (rw t at h)) [
    | inl here ↦ mem-append_left (subgraph_edges a.wft) (all_edges actions) here
    | inr there ↦
        mem-append_right (subgraph_edges a.wft) (all_edges actions) (edges_from-all actions n there)
  ]
  | inr f ↦
      mem-append_right (subgraph_edges a.wft) (all_edges actions)
        (edges_from-all actions n (rw f at h))
]

at_join_false :
    (join : WftTarget) (n : Text)
    → join_node join ≢ some n
    → opt_eq text_eq (some n) (join_node join) ≡ false
at_join_false join n h = elim (Bool-cases (opt_eq text_eq (some n) (join_node join))) [
  | inl t ↦ absurd (h (sym ((opt_eq_iff text_eq text_eq_iff (some n) (join_node join)).0 t)))
  | inr f ↦ f
]

at_join_ne :
    (join : WftTarget) (n : Text)
    → opt_eq text_eq (some n) (join_node join) ≡ false
    → join_node join ≢ some n
at_join_ne join n f e =
    absurd (let t = (opt_eq_iff text_eq text_eq_iff (some n) (join_node join)).1 (sym e) in cc)

expand-Walk :
    {wfd : Wfd} {entries : List Text} {join : WftTarget} {n m : Text}
    → Walk wfd entries join n
    → Memᴰ m (expand wfd join n)
    → Walk wfd entries join m
unfolding expand
expand-Walk {wfd} {entries} {join} {n} w h =
    elim (Bool-cases (opt_eq text_eq (some n) (join_node join))) [
      | inl t ↦ elim (rw t at h) [ ]
      | inr f ↦
          let (k, a, mem, e, r) = mem-edges_from wfd.actions n (rw f at h) in
          Walk.step k a w (at_join_ne join n f) mem e r
    ]

walk-Walk :
    (fuel : ℕ) (wfd : Wfd) (entries : List Text) (join : WftTarget) (seen queue : List Text)
    → ((n : Text) → Memᴰ n seen → Walk wfd entries join n)
    → ((n : Text) → Memᴰ n queue → Walk wfd entries join n)
    → (n : Text) → Memᴰ n (walk fuel wfd join (seen, queue))
    → Walk wfd entries join n
unfolding walk
walk-Walk zero wfd entries join seen [] old waits = old
walk-Walk (suc fuel) wfd entries join seen [] old waits = old
walk-Walk zero wfd entries join seen (x ∷ queue) old waits = old
walk-Walk (suc fuel) wfd entries join seen (x ∷ queue) old waits =
    let (old', waits') =
      enqueue-All (Walk wfd entries join) (expand wfd join x) seen queue
        (λ n m. expand-Walk (waits x (Memᴰ.head refl)) m) old (λ n m. waits n (Memᴰ.tail m)) in
    walk-Walk fuel wfd entries join (enqueue (expand wfd join x) (seen, queue)).0
      (enqueue (expand wfd join x) (seen, queue)).1 old' waits'

-- A seen node that does not wait has all its targets seen.
abbrev Closed : Wfd → WftTarget → List Text → List Text → Type 0
Closed wfd join seen queue =
    (n : Text)
    → Memᴰ n seen
    → Memᴰ n queue ⊎ ((m : Text) → Memᴰ m (expand wfd join n) → Memᴰ m seen)

round-Closed :
    (wfd : Wfd) (join : WftTarget) (x : Text) (seen queue : List Text)
    → Closed wfd join seen (x ∷ queue)
    → Closed wfd join
        (enqueue (expand wfd join x) (seen, queue)).0
        (enqueue (expand wfd join x) (seen, queue)).1
round-Closed wfd join x seen queue closed n m =
    let xs = expand wfd join x in
    elim (enqueue-fresh xs seen queue m) [
      | inr waits ↦ inl waits
      | inl old ↦ elim (closed n old) [
        | inr all ↦ inr (λ k h. enqueue-seen xs seen queue (inl (all k h)))
        | inl waited ↦ elim (Memᴰ-cases waited) [
          | inl e ↦ inr (λ k h. enqueue-seen xs seen queue (inr (rw e at h)))
          | inr z ↦ inl (enqueue-queue xs seen queue z)
        ]
      ]
    ]

expand-all :
    (wfd : Wfd) (join : WftTarget) (n m : Text)
    → Memᴰ m (expand wfd join n)
    → Memᴰ m (all_edges wfd.actions)
unfolding expand
expand-all wfd join n m h = elim (Bool-cases (opt_eq text_eq (some n) (join_node join))) [
  | inl t ↦ elim (rw t at h) [ ]
  | inr f ↦ edges_from-all wfd.actions n (rw f at h)
]

-- The walk ends with an empty queue, if the fuel is at least its measure.
walk-Closed :
    (fuel : ℕ) (wfd : Wfd) (entries : List Text) (join : WftTarget) (seen queue : List Text)
    → length queue + unseen seen (entries ++ all_edges wfd.actions) ≤ fuel
    → Closed wfd join seen queue
    → Closed wfd join (walk fuel wfd join (seen, queue)) []
      × ((n : Text) → Memᴰ n seen → Memᴰ n (walk fuel wfd join (seen, queue)))
unfolding walk
walk-Closed zero wfd entries join seen [] le closed = (closed, λ n m. m)
walk-Closed (suc fuel) wfd entries join seen [] le closed = (closed, λ n m. m)
walk-Closed zero wfd entries join seen (x ∷ queue) le closed = absurd (omega arith)
walk-Closed (suc fuel) wfd entries join seen (x ∷ queue) le closed =
    let xs = expand wfd join x in
    let all = entries ++ all_edges wfd.actions in
    let (last, keeps) =
      walk-Closed fuel wfd entries join (enqueue xs (seen, queue)).0 (enqueue xs (seen, queue)).1
        (omega (
          arith,
          enqueue-measure xs seen queue all
              (λ n m. mem-append_right entries (all_edges wfd.actions) (expand-all wfd join x n m)),
        ))
        (round-Closed wfd join x seen queue closed) in
    (last, λ n m. keeps n (enqueue-seen xs seen queue (inl m)))

fork_subgraph-Closed :
    (wfd : Wfd) (entries : List Text) (join : WftTarget)
    → Closed wfd join (fork_subgraph wfd entries join) []
      × ((n : Text) → Memᴰ n entries → Memᴰ n (fork_subgraph wfd entries join))
unfolding fork_subgraph
fork_subgraph-Closed wfd entries join =
    let all = entries ++ all_edges wfd.actions in
    let (closed, keeps) =
      walk-Closed (rounds wfd entries) wfd entries join (enqueue entries ([], [])).0
        (enqueue entries ([], [])).1
        (omega (
          arith,
          enqueue-measure entries [] [] all
              (λ n m. mem-append_left entries (all_edges wfd.actions) m),
          unseen_none all,
          length-append entries (all_edges wfd.actions),
        ))
        (λ n m. elim (enqueue-fresh entries [] [] m) [ inl z ↦ elim z [ ] | inr w ↦ inl w ]) in
    (closed, λ n m. keeps n (enqueue-seen entries [] [] (inr m)))

Walk-fork_subgraph :
    {wfd : Wfd} {entries : List Text} {join : WftTarget} {n : Text}
    → Walk wfd entries join n
    → Memᴰ n (fork_subgraph wfd entries join)
unfolding expand
Walk-fork_subgraph {wfd} {entries} {join} (Walk.entry m) =
    (fork_subgraph-Closed wfd entries join).1 _ m
Walk-fork_subgraph {wfd} {entries} {join} (Walk.step {n} {m} k a w apart mem e r) =
    elim ((fork_subgraph-Closed wfd entries join).0 n (Walk-fork_subgraph w)) [
      | inl z ↦ elim z [ ]
      | inr all ↦ all m (rw (at_join_false join n apart) (edges_from-mem wfd.actions a mem e r))
    ]

-- The subgraph of a fork is exact, whatever cycles the actions make: a node is in it exactly when
-- a branch can walk there by the actions' routes without leaving the join.
pub fork_subgraph_iff :
    (wfd : Wfd) (entries : List Text) (join : WftTarget) (n : Text)
    → Memᴰ n (fork_subgraph wfd entries join) ↔ Walk wfd entries join n
fork_subgraph_iff wfd entries join n = (
  unfold fork_subgraph in
      λ m.
        let (old, waits) =
          enqueue-All (Walk wfd entries join) entries [] [] (λ k h. Walk.entry h)
            (λ k h. elim h [ ]) (λ k h. elim h [ ]) in
        walk-Walk (rounds wfd entries) wfd entries join (enqueue entries ([], [])).0
          (enqueue entries ([], [])).1 old waits n m,
  λ w. Walk-fork_subgraph w,
)
