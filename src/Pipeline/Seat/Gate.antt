-- ===== src/Pipeline/Seat/Gate.antt =====
-- crates/wfe-core/src/v22/pipeline.rs (`Engine::apply`): who gets through the gates, and where.
use agnoflow_engine.Prelude.{
  ◌≡◌, refl, Memᴰ-cases, true, false, Option, none, some, List, [], ◌∷◌, Memᴰ, inl, inr, Text,
  text_eq, text_eq_sound, ◌==◌, ==_iff, mem-filter, is_some, Bool-cases, Option-cases, ok,
  >>=-eq-ok, lookup,
}
use agnoflow_engine.Types.Actor.{Uuid, Instant, Actor}
use agnoflow_engine.Types.Wfd.{ActionDef, Wfd}
use agnoflow_engine.Types.Wfes.{BranchState, branch_is_active, Wfes}
use agnoflow_engine.Pipeline.{is_terminal_class}
use agnoflow_engine.Pipeline.Sla.{deadline_due}
use agnoflow_engine.Pipeline.Seat.{
  Engine, Request, Seat, Done, seat_at, check_owner, action_from, check_hint, check_branch_hint,
  found, current_of, one_match, active_branches, guard_holds, single_seat, matched, hinted,
  match_branches, parallel_seat, seat_of,
}

check_owner_sound :
    (owner : Option Uuid) (actor : Actor) (d : Done)
    → check_owner owner actor ≡ ok d
    → owner ≡ some actor.user_id
unfolding check_owner
check_owner_sound none actor d h = absurd (cc)
check_owner_sound (some owner) actor d h = elim (Bool-cases (owner == actor.user_id)) [
  | inl t ↦ let e : owner ≡ actor.user_id = (==_iff owner actor.user_id).0 t in cc
  | inr f ↦ absurd (let h' = rw (f, check_owner) at h in cc)
]

-- The action is one that the document has, taken at this node.
abbrev pub Offers : Wfd → Text → Text → ActionDef → Type 0
Offers wfd action node a = (lookup action wfd.actions ≡ some a) × (a.from ≡ node)

action_from_sound :
    (wfd : Wfd) (action node : Text) (a : ActionDef)
    → action_from wfd action node ≡ some a
    → Offers wfd action node a
unfolding action_from
action_from_sound wfd action node a h = elim (Option-cases (lookup action wfd.actions)) [
  | inl e ↦ absurd (let h' = rw (e, action_from) at h in cc)
  | inr (b, e) ↦ elim (Bool-cases (text_eq b.from node)) [
    | inl t ↦
        let h' : some b ≡ some a = rw (e, t, action_from) at h in
        let q : b ≡ a = cc in rw (← q) (e, text_eq_sound b.from node t)
    | inr f ↦ absurd (let h' = rw (e, f, action_from) at h in cc)
  ]
]

found_sound :
    (o : Option ActionDef) (action : Text) {a : ActionDef} → found o action ≡ ok a → o ≡ some a
found_sound none action h = absurd (cc)
found_sound (some b) action h = cc

module _ (engine : Engine) (wfd : Wfd) (now : Instant) (wfes : Wfes) (req : Request) where
  -- The action is offered at the node, and its guard holds there.
  abbrev pub Enabled : Text → ActionDef → Type 0
  Enabled node a =
      Offers wfd req.action node a × (guard_holds engine wfd now wfes req a node ≡ ok true)

  -- The seats that the actor holds: the node of an instance without branches that is assigned to the
  -- actor, or an active branch that the actor has claimed.
  pub data Seated : Seat → Type 0 where
    alone :
        {node : Text} {a : ActionDef}
        → is_some wfes.join_target ≡ false
        → wfes.current_node ≡ some node
        → wfes.assigned_to ≡ some (Actor.user_id req.actor)
        → Enabled node a
        → Seated (seat_at node none a)
    at_branch :
        {b : BranchState} {a : ActionDef}
        → is_some wfes.join_target ≡ true
        → Memᴰ b wfes.branches
        → branch_is_active b.status ≡ true
        → b.claimed_by ≡ some (Actor.user_id req.actor)
        → Enabled b.branch_node a
        → Seated (seat_at b.branch_node (some b) a)

  current_is : (node : Text) → current_of wfes ≡ ok node → wfes.current_node ≡ some node
  current_is node e = elim (Option-cases wfes.current_node) [
    | inl q ↦ absurd (let e' = rw q at e in cc)
    | inr (m, q) ↦ let e' = rw q at e in cc
  ]

  single_seat_sound :
      {seat : Seat}
      → is_some wfes.join_target ≡ false
      → single_seat engine wfd now wfes req ≡ ok seat
      → Seated seat
  unfolding single_seat
  single_seat_sound {seat} j h =
      let (node, e, h1) = >>=-eq-ok (current_of wfes) _ h in
      let (_, _, h2) = >>=-eq-ok (check_hint req.node_hint node) _ h1 in
      let (d, o, h3) = >>=-eq-ok (check_owner wfes.assigned_to req.actor) _ h2 in
      let (a, f, h4) = >>=-eq-ok (found (action_from wfd req.action node) req.action) _ h3 in
      let (holds, g, h5) = >>=-eq-ok (guard_holds engine wfd now wfes req a node) _ h4 in
      elim (Bool-cases holds) [
        | inl t ↦
            let q : ok (seat_at node none a) ≡ ok seat = rw t at h5 in
            let q' : seat_at node none a ≡ seat = cc in
            rw (← q') (
              alone j (current_is node e) (check_owner_sound wfes.assigned_to req.actor d o)
                (action_from_sound wfd req.action node a (found_sound _ req.action f), rw t at g))
        | inr u ↦ absurd (let h' = rw u at h5 in cc)
      ]

  abbrev Match : Type 0
  Match = BranchState × ActionDef

  matched_sound :
      (b : BranchState) (a : ActionDef)
      → matched engine wfd now wfes req b ≡ ok (some a)
      → Enabled b.branch_node a
  matched_sound b a h = elim (Bool-cases (hinted req.node_hint b.branch_node)) [
    | inr f ↦ absurd (let h' = rw f at h in cc)
    | inl t ↦ elim (Option-cases (action_from wfd req.action b.branch_node)) [
      | inl e ↦ absurd (let h' = rw (t, e) at h in cc)
      | inr (c, e) ↦
          let (holds, g, k) =
            >>=-eq-ok (guard_holds engine wfd now wfes req c b.branch_node) _ (rw (t, e) at h) in
          elim (Bool-cases holds) [
            | inr f ↦ absurd (let k' = rw f at k in cc)
            | inl u ↦
                let k' = rw u at k in
                let q : c ≡ a = cc in
                rw (← q) (action_from_sound wfd req.action b.branch_node c e, rw u at g)
          ]
    ]
  ]

  match_branches_sound :
      (bs : List BranchState) {ms : List Match} {m : Match}
      → match_branches engine wfd now wfes req bs ≡ ok ms
      → Memᴰ m ms
      → Memᴰ m.0 bs × Enabled (BranchState.branch_node m.0) m.1
  unfolding match_branches
  match_branches_sound [] {ms} h i = let q : ms ≡ [] = cc in elim (rw q at i) [ ]
  match_branches_sound (b ∷ bs) {ms} {m} h i =
      let (o, e, h1) = >>=-eq-ok (matched engine wfd now wfes req b) _ h in
      let (rest, r, h2) = >>=-eq-ok (match_branches engine wfd now wfes req bs) _ h1 in
      elim (Option-cases o) [
        | inl n ↦
            let h3 = rw n at h2 in
            let q : ms ≡ rest = cc in
            let (k, en) = match_branches_sound bs r (rw q at i) in (Memᴰ.tail k, en)
        | inr (a, n) ↦
            let h3 = rw n at h2 in
            let q : ms ≡ (b, a) ∷ rest = cc in
            elim (Memᴰ-cases (rw q at i)) [
              | inl x ↦ rw x (Memᴰ.head refl, matched_sound b a (rw n at e))
              | inr y ↦ let (k, en) = match_branches_sound bs r y in (Memᴰ.tail k, en)
            ]
      ]

  one_match_sound : (ms : List Match) {m : Match} → one_match req.action ms ≡ ok m → Memᴰ m ms
  one_match_sound [] h = absurd (cc)
  one_match_sound (x ∷ []) h = Memᴰ.head (cc)
  one_match_sound (x ∷ y ∷ ms) h = absurd (cc)

  parallel_seat_sound :
      {seat : Seat}
      → is_some wfes.join_target ≡ true
      → parallel_seat engine wfd now wfes req ≡ ok seat
      → Seated seat
  unfolding parallel_seat active_branches
  parallel_seat_sound {seat} j h =
      let (_, _, h1) = >>=-eq-ok (check_branch_hint req.node_hint (active_branches wfes)) _ h in
      let (ms, k, h2) =
        >>=-eq-ok (match_branches engine wfd now wfes req (active_branches wfes)) _ h1 in
      let (m, o, h3) = >>=-eq-ok (one_match req.action ms) _ h2 in
      let (d, c, h4) = >>=-eq-ok (check_owner (BranchState.claimed_by m.0) req.actor) _ h3 in
      let (i, en) = match_branches_sound (active_branches wfes) k (one_match_sound ms o) in
      let (b, act) = mem-filter (λ b. branch_is_active (BranchState.status b)) wfes.branches i in
      let q : seat_at (BranchState.branch_node m.0) (some m.0) m.1 ≡ seat = cc in
      rw (← q) (at_branch j b act (check_owner_sound (BranchState.claimed_by m.0) req.actor d c) en)

  -- the instance is neither ended nor past its deadline
  abbrev pub Open : Type 0
  Open = (is_terminal_class wfes.status ≡ false) × (deadline_due wfes now ≡ false)

  -- An action is taken only on an instance that has neither ended nor passed its deadline, and only
  -- from a seat that its actor holds and that offers the action under a guard that holds.
  pub seat_of_sound : {seat : Seat} → seat_of engine wfd now wfes req ≡ ok seat → Open × Seated seat
  unfolding seat_of
  seat_of_sound h = elim (Bool-cases (is_terminal_class wfes.status)) [
    | inl t ↦ absurd (let h' = rw (t, seat_of) at h in cc)
    | inr t ↦ elim (Bool-cases (deadline_due wfes now)) [
      | inl d ↦ absurd (let h' = rw (t, d, seat_of) at h in cc)
      | inr d ↦ elim (Bool-cases (is_some wfes.join_target)) [
        | inl j ↦ ((t, d), parallel_seat_sound j (rw (t, d, j, seat_of) at h))
        | inr j ↦ ((t, d), single_seat_sound j (rw (t, d, j, seat_of) at h))
      ]
    ]
  ]
