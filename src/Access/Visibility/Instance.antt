-- ===== src/Access/Visibility/Instance.antt =====
-- crates/wfe-core/src/v22/visibility.rs: the criteria of `can_view`, which are an "or", and which of
-- them outlive the instance.
use agnoflow_engine.Prelude.{
  ◌≡◌, ◌⊎◌, refl, Bool, true, false, ◌&&◌, not, none, some, List, [], ◌∷◌, map, find, find-mem,
  Memᴰ, inl, inr, if◌then◌else◌, ◌==◌, ==_iff, ==_refl, opt_eq, opt_eq_iff, &&_split, Bool-cases,
  Option-cases, any-mem, text_eq, text_eq_sound, Text, lookup, ok,
}
use agnoflow_engine.Types.Errors.{Fallible}
use agnoflow_engine.Types.Actor.{Instant, Actor}
use agnoflow_engine.Types.Wfd.{CaGrantRule, WfAdminRule, NodeDef, Terminal, Wfd}
use agnoflow_engine.Types.Wfes.{Wfes, BranchState, is_active, branch_is_active}
use agnoflow_engine.Types.Host.{Host}
use agnoflow_engine.Ledger.Valid.{for_version}
use agnoflow_engine.Access.Ports.{OrgPort}
use agnoflow_engine.Access.Matcher.{authorize_or_delegated_anchored}
use agnoflow_engine.Access.Grants.{match_env, matches_grant_rules}
use agnoflow_engine.Access.Grants.Admins.{Opens, matches_grant_rules_sound}
use agnoflow_engine.Access.Visibility.Criteria.{or_else_true, ok_true}
use agnoflow_engine.Access.Visibility.{
  ◌or_else◌, nodes_show, terminal_shows, owns, owns_branch, active_nodes, can_view,
}

module _ (host : Host) (org : OrgPort) (now : Instant) (wfd : Wfd) (wfes : Wfes)
    (viewer : Actor) where
  abbrev Grant : CaGrantRule → Type 0
  Grant = Opens host org now viewer wfes (for_version wfd)

  -- The grants that outlive the instance: of the workflow's list, of its administrators, and of the
  -- terminal where the instance has ended.
  pub data Permanent : Type 0 where
    listed : (rule : CaGrantRule) → Memᴰ rule wfd.listable → Grant rule → Permanent
    administers :
        (rule : CaGrantRule)
        → Memᴰ rule (map WfAdminRule.grant wfd.wf_admin)
        → Grant rule
        → Permanent
    ended :
        (terminal : Terminal)
        → Memᴰ terminal wfd.terminals
        → wfes.end_terminal ≡ some terminal.id
        → (rule : CaGrantRule) → Memᴰ rule terminal.listable
        → Grant rule
        → Permanent

  -- What shows an instance while it is active: who has claimed it or a branch of it, and who may
  -- work on one of its active nodes or is listed there.
  pub data Current : Type 0 where
    owner : wfes.assigned_to ≡ some viewer.user_id → Current
    branch_owner :
        (branch : BranchState)
        → Memᴰ branch wfes.branches
        → branch_is_active branch.status ≡ true
        → branch.claimed_by ≡ some viewer.user_id
        → Current
    candidate :
        (node_key : Text) (node : NodeDef)
        → Memᴰ node_key (active_nodes wfes)
        → lookup node_key wfd.nodes ≡ some node
        → authorize_or_delegated_anchored host org node.c_a viewer wfes.origin_orgu_id
            (match_env wfes)
            now
          ≡ ok true
        → Current
    node_listed :
        (node_key : Text) (node : NodeDef)
        → Memᴰ node_key (active_nodes wfes)
        → lookup node_key wfd.nodes ≡ some node
        → (rule : CaGrantRule) → Memᴰ rule node.listable
        → Grant rule
        → Current

  terminal_shows_sound : terminal_shows host org now wfd wfes viewer ≡ ok true → Permanent
  unfolding terminal_shows
  terminal_shows_sound h = elim (Option-cases wfes.end_terminal) [
    | inl e ↦ absurd (let h' = rw (e, terminal_shows) at h in cc)
    | inr (id, e) ↦ elim (Option-cases (find (λ t. text_eq (Terminal.id t) id) wfd.terminals)) [
      | inl e1 ↦ absurd (let h' = rw (e, terminal_shows, e1) at h in cc)
      | inr (terminal, e1) ↦
          let (m, t) = find-mem (λ t. text_eq (Terminal.id t) id) wfd.terminals e1 in
          let (rule, r, o) =
            matches_grant_rules_sound host org now viewer wfes (for_version wfd) terminal.listable
              true (rw (e, terminal_shows, e1) at h) in
          ended terminal m (rw (text_eq_sound terminal.id id t) e) rule r o
    ]
  ]

  node_shows_sound :
      (key : Text) (node : NodeDef) (keys : List Text)
      → Memᴰ key (active_nodes wfes)
      → lookup key wfd.nodes ≡ some node
      → (nodes_show host org now wfd wfes viewer keys ≡ ok true → Current)
      → (authorize_or_delegated_anchored host org node.c_a viewer wfes.origin_orgu_id
            (match_env wfes)
            now
          or_else (matches_grant_rules host org now node.listable viewer wfes (for_version wfd)
              or_else nodes_show host org now wfd wfes viewer keys))
        ≡ ok true
      → Current
  node_shows_sound key node keys m e ih h =
      elim (or_else_true
        (authorize_or_delegated_anchored host org node.c_a viewer wfes.origin_orgu_id
          (match_env wfes) now)
        (matches_grant_rules host org now node.listable viewer wfes (for_version wfd)
          or_else nodes_show host org now wfd wfes viewer keys)
        h) [
          | inl a ↦ candidate key node m e a
          | inr h1 ↦
              elim (or_else_true
                (matches_grant_rules host org now node.listable viewer wfes (for_version wfd))
                (nodes_show host org now wfd wfes viewer keys) h1) [
                  | inl g ↦
                      let (rule, r, o) =
                        matches_grant_rules_sound host org now viewer wfes (for_version wfd)
                          node.listable true g in
                      node_listed key node m e rule r o
                  | inr h2 ↦ ih h2
                ]
        ]

  -- the loop over a part of the active nodes
  nodes_show_sound :
      (keys : List Text)
      → ((k : Text) → Memᴰ k keys → Memᴰ k (active_nodes wfes))
      → nodes_show host org now wfd wfes viewer keys ≡ ok true
      → Current
  unfolding nodes_show
  nodes_show_sound [] among h = absurd (cc)
  nodes_show_sound (key ∷ keys) among h = elim (Option-cases (lookup key wfd.nodes)) [
    | inl e ↦ nodes_show_sound keys (λ k m. among k (Memᴰ.tail m)) (rw (e, nodes_show) at h)
    | inr (node, e) ↦
        node_shows_sound key node keys (among key (Memᴰ.head refl)) e
          (nodes_show_sound keys (λ k m. among k (Memᴰ.tail m))) (rw (e, nodes_show) at h)
  ]

  owns_sound : owns wfes viewer ≡ true → Current
  unfolding owns
  owns_sound h =
      owner ((opt_eq_iff (λ a b. a == b) ==_iff wfes.assigned_to (some viewer.user_id)).0 h)

  owns_branch_sound : owns_branch wfes viewer ≡ true → Current
  unfolding owns_branch
  owns_branch_sound h =
      let (b, m, t) =
        any-mem
          (λ b.
            branch_is_active (BranchState.status b)
            && opt_eq (λ a c. a == c) (BranchState.claimed_by b) (some viewer.user_id))
          wfes.branches h in
      let (active, mine) =
        &&_split (branch_is_active (BranchState.status b))
          (opt_eq (λ a c. a == c) (BranchState.claimed_by b) (some viewer.user_id)) t in
      branch_owner b m active
        ((opt_eq_iff (λ a c. a == c) ==_iff b.claimed_by (some viewer.user_id)).0 mine)

  -- the criteria of an active instance
  abbrev current_part : Fallible Bool
  current_part =
      ok (owns wfes viewer)
      or_else (ok (owns_branch wfes viewer)
          or_else nodes_show host org now wfd wfes viewer (active_nodes wfes))

  current_sound : current_part ≡ ok true → Current
  current_sound h =
      elim (or_else_true (ok (owns wfes viewer))
        (ok (owns_branch wfes viewer)
          or_else nodes_show host org now wfd wfes viewer (active_nodes wfes))
        h) [
          | inl o ↦ owns_sound (ok_true o)
          | inr h1 ↦
              elim (or_else_true (ok (owns_branch wfes viewer))
                (nodes_show host org now wfd wfes viewer (active_nodes wfes)) h1) [
                  | inl o ↦ owns_branch_sound (ok_true o)
                  | inr h2 ↦ nodes_show_sound (active_nodes wfes) (λ k m. m) h2
                ]
        ]

  abbrev state_part : Fallible Bool
  state_part = if not (is_active wfes.status) then ok false else current_part

  state_sound : state_part ≡ ok true → (is_active wfes.status ≡ true) × Current
  state_sound h = elim (Bool-cases (is_active wfes.status)) [
    | inl t ↦ (t, current_sound (rw t at h))
    | inr f ↦ absurd (let h' = rw f at h in cc)
  ]

  abbrev terminal_part : Fallible Bool
  terminal_part = terminal_shows host org now wfd wfes viewer or_else state_part

  abbrev admin_part : Fallible Bool
  admin_part =
      matches_grant_rules host org now (map WfAdminRule.grant wfd.wf_admin) viewer wfes
        (for_version wfd)
      or_else terminal_part

  -- Who sees an instance has a grant that outlives it, or the instance is active and the viewer owns
  -- it or a branch of it, may work on an active node, or is listed on one. A part in the ledger
  -- gives no sight.
  pub can_view_sound :
      can_view host org now wfd wfes viewer ≡ ok true
      → Permanent ⊎ ((is_active wfes.status ≡ true) × Current)
  unfolding can_view
  can_view_sound h =
      elim (or_else_true
        (matches_grant_rules host org now wfd.listable viewer wfes (for_version wfd)) admin_part
        h) [
          | inl g ↦
              let (rule, r, o) =
                matches_grant_rules_sound host org now viewer wfes (for_version wfd) wfd.listable
                  true g in
              inl (listed rule r o)
          | inr h1 ↦
              elim (or_else_true
                (matches_grant_rules host org now (map WfAdminRule.grant wfd.wf_admin) viewer wfes
                  (for_version wfd))
                terminal_part h1) [
                  | inl g ↦
                      let (rule, r, o) =
                        matches_grant_rules_sound host org now viewer wfes (for_version wfd)
                          (map WfAdminRule.grant wfd.wf_admin) true g in
                      inl (administers rule r o)
                  | inr h2 ↦
                      elim (or_else_true (terminal_shows host org now wfd wfes viewer) state_part
                        h2) [ inl g ↦ inl (terminal_shows_sound g) | inr h3 ↦ inr (state_sound h3) ]
                ]
        ]

  -- An active instance that its grants do not decide is seen by its owner; and no failure of the
  -- store over a node's candidates can hide it from the owner.
  pub can_view_owner :
      matches_grant_rules host org now wfd.listable viewer wfes (for_version wfd) ≡ ok false
      → matches_grant_rules host org now
          (map WfAdminRule.grant wfd.wf_admin)
          viewer
          wfes
          (for_version wfd)
        ≡ ok false
      → wfes.end_terminal ≡ none
      → is_active wfes.status ≡ true
      → wfes.assigned_to ≡ some viewer.user_id
      → can_view host org now wfd wfes viewer ≡ ok true
  unfolding can_view owns terminal_shows
  can_view_owner l a e s o =
      rw (l, can_view, a, terminal_shows, e, s, owns, o, ==_refl viewer.user_id)
