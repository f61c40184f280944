-- ===== src/Pipeline/Routing/Menu.antt =====
-- crates/wfe-core/src/v22/pipeline.rs: what `select_wft` lets through, and that the menu it checks is
-- the one that the client is offered.
use agnoflow_engine.Prelude.{
  ◌≡◌, ◌↔◌, subst, true, Option, none, some, List, Bool-cases, inl, inr, Text, text_eq,
  text_eq_sound, text_eq_refl, any-mem, mem-any, filter, mem-filter, filter-mem, Memᴰ, ok,
}
use agnoflow_engine.Types.Wfd.{Wft}
use agnoflow_engine.Pipeline.Routing.{contains, offered_targets, unexpected, select_wft}

pub contains-mem : (nodes : List Text) (node : Text) → contains nodes node ≡ true → Memᴰ node nodes
contains-mem nodes node h =
    let (x, m, q) = any-mem (text_eq node) nodes h in rw (text_eq_sound node x q) m

pub mem-contains : (nodes : List Text) (node : Text) → Memᴰ node nodes → contains nodes node ≡ true
mem-contains nodes node m = mem-any (text_eq node) nodes m (text_eq_refl node)

-- A target is offered if the document lists it and the instance has visited it.
abbrev pub Offered : List Text → List Text → Text → Type 0
Offered targets visited node = Memᴰ node targets × Memᴰ node visited

offered_targets_iff :
    (targets visited : List Text) (node : Text)
    → (contains (offered_targets targets visited) node ≡ true) ↔ Offered targets visited node
unfolding offered_targets
offered_targets_iff targets visited node = (
  λ h.
      let (m, v) =
        mem-filter (contains visited) targets
          (contains-mem (filter (contains visited) targets) node h) in
      (m, contains-mem visited node v),
  λ (m, v).
      mem-contains (filter (contains visited) targets) node
        (filter-mem (contains visited) targets m (mem-contains visited node v)),
)

-- what a client may ask of a route, and where it leads
pub data Selects : Wft → Option Text → List Text → Wft → Type 0 where
  from_menu :
      {targets visited : List Text} {chosen : Text}
      → Offered targets visited chosen
      → Selects (Wft.send_back targets) (some chosen) visited (Wft.node chosen)
  no_menu :
      {wft : Wft} {visited : List Text}
      → ((targets : List Text) → ¬ (wft ≡ Wft.send_back targets))
      → Selects wft none visited wft

unexpected_sound :
    (wft : Wft) (target : Option Text) (visited : List Text) {route : Wft}
    → ((targets : List Text) → ¬ (wft ≡ Wft.send_back targets))
    → unexpected wft target ≡ ok route
    → Selects wft target visited route
unexpected_sound wft none visited {route} other h =
    let e : wft ≡ route = cc in subst (Selects wft none visited) e (no_menu other)
unexpected_sound wft (some t) visited other h = absurd (cc)

-- The route that a transition takes is a chosen node of the menu that the instance has visited, where
-- the route is a menu, and the route itself, where it is none and the client has named no target.
pub select_wft_sound :
    (wft : Wft) (target : Option Text) (visited : List Text) {route : Wft}
    → select_wft wft target visited ≡ ok route
    → Selects wft target visited route
unfolding select_wft
select_wft_sound (Wft.send_back targets) none visited h = absurd (cc)
select_wft_sound (Wft.send_back targets) (some chosen) visited {route} h =
    elim (Bool-cases (contains (offered_targets targets visited) chosen)) [
      | inl t ↦
          let q : ok (Wft.node chosen) ≡ ok route = rw (t, select_wft) at h in
          let e : Wft.node chosen ≡ route = cc in
          subst (Selects (Wft.send_back targets) (some chosen) visited) e
            (from_menu ((offered_targets_iff targets visited chosen).0 t))
      | inr f ↦ absurd (let h' = rw (f, select_wft) at h in cc)
    ]
select_wft_sound (Wft.node n) target visited h =
    unexpected_sound (Wft.node n) target visited (λ ts e. absurd (cc)) h
select_wft_sound (Wft.terminal t) target visited h =
    unexpected_sound (Wft.terminal t) target visited (λ ts e. absurd (cc)) h
select_wft_sound (Wft.conditional cs d) target visited h =
    unexpected_sound (Wft.conditional cs d) target visited (λ ts e. absurd (cc)) h
select_wft_sound (Wft.parallel p) target visited h =
    unexpected_sound (Wft.parallel p) target visited (λ ts e. absurd (cc)) h
select_wft_sound (Wft.collapse t) target visited h =
    unexpected_sound (Wft.collapse t) target visited (λ ts e. absurd (cc)) h

-- Each target that the menu of a send-back offers to a client can be taken.
pub select_wft_offered :
    (targets visited : List Text) (chosen : Text)
    → Memᴰ chosen (offered_targets targets visited)
    → select_wft (Wft.send_back targets) (some chosen) visited ≡ ok (Wft.node chosen)
unfolding select_wft
select_wft_offered targets visited chosen m =
    rw (mem-contains (offered_targets targets visited) chosen m, select_wft)
