-- ===== src/Access/Grants/Node.antt =====
-- crates/wfe-core/src/v22/grants.rs: who may work at a node.
use agnoflow_engine.Prelude.{
  ◌≡◌, ◌⊎◌, Bool, true, some, Memᴰ, inl, inr, if◌then◌else◌, Bool-cases, Option-cases, is_empty,
  Text, lookup, ok, ◌>>=◌, >>=-eq-ok,
}
use agnoflow_engine.Types.Errors.{Fallible}
use agnoflow_engine.Types.Actor.{Instant, Actor}
use agnoflow_engine.Types.Wfd.{CaGrantRule, NodeDef, Wfd}
use agnoflow_engine.Types.Wfes.{Wfes}
use agnoflow_engine.Types.Host.{Host}
use agnoflow_engine.Ledger.Valid.{for_version}
use agnoflow_engine.Access.Ports.{OrgPort}
use agnoflow_engine.Access.Matcher.{
  AuthDecision, denied, direct, is_authorized, authorize_with_delegation_anchored,
}
use agnoflow_engine.Access.Grants.{
  match_env, matches_grant_rules, open_grants, authorize_node_decision, authorize_node,
}
use agnoflow_engine.Access.Grants.Admins.{Opens, matches_grant_rules_sound}

module _ (host : Host) (org : OrgPort) (now : Instant) (wfd : Wfd) (wfes : Wfes) (node_key : Text)
    (actor : Actor) where
  -- the node's own pool, with its delegations
  abbrev pub Pooled : NodeDef → AuthDecision → Type 0
  Pooled node d =
      authorize_with_delegation_anchored host org (NodeDef.c_a node) actor wfes.origin_orgu_id
        (match_env wfes) now
      ≡ ok d

  -- The pool of the node admits the actor, or a grant that is open on it does.
  abbrev pub MayWork : NodeDef → Type 0
  MayWork node =
      ((d : AuthDecision) × Pooled node d × (is_authorized d ≡ true))
      ⊎ ((rule : CaGrantRule) × Memᴰ rule (open_grants wfd wfes.wfah node_key)
          × Opens host org now actor wfes (for_version wfd) rule)

  abbrev by_grant_step : Bool → Fallible AuthDecision
  by_grant_step by_grant = ok (if by_grant then direct else denied)

  abbrev grants_step : Fallible AuthDecision
  grants_step =
      if is_empty (open_grants wfd wfes.wfah node_key)
      then ok denied
      else matches_grant_rules host org now (open_grants wfd wfes.wfah node_key) actor wfes
          (for_version wfd)
        >>= by_grant_step

  abbrev own_step : AuthDecision → Fallible AuthDecision
  own_step own = if is_authorized own then ok own else grants_step

  grants_step_sound :
      (node : NodeDef) (d : AuthDecision)
      → grants_step ≡ ok d
      → is_authorized d ≡ true
      → MayWork node
  grants_step_sound node d h a = elim (Bool-cases (is_empty (open_grants wfd wfes.wfah node_key))) [
    | inl t ↦
        let q : Path (Fallible AuthDecision) (ok denied) (ok d) = rw t at h in
        let q' : denied ≡ d = cc in absurd (let a' = rw (← q') at a in cc)
    | inr f ↦
        let (b, e, h1) =
          >>=-eq-ok
            (matches_grant_rules host org now (open_grants wfd wfes.wfah node_key) actor wfes
              (for_version wfd))
            by_grant_step (rw f at h) in
        elim (Bool-cases b) [
          | inl t ↦ inr (
              matches_grant_rules_sound host org now actor wfes (for_version wfd)
                (open_grants wfd wfes.wfah node_key) true (rw t at e))
          | inr f' ↦
              let q : Path (Fallible AuthDecision) (ok denied) (ok d) = rw f' at h1 in
              let q' : denied ≡ d = cc in absurd (let a' = rw (← q') at a in cc)
        ]
  ]

  own_step_sound :
      (node : NodeDef) (d : AuthDecision)
      → (authorize_with_delegation_anchored host org
            (NodeDef.c_a node)
            actor
            wfes.origin_orgu_id
            (match_env wfes)
            now
          >>= own_step)
        ≡ ok d
      → is_authorized d ≡ true
      → MayWork node
  own_step_sound node d h a =
      let (own, e, h1) =
        >>=-eq-ok
          (authorize_with_delegation_anchored host org (NodeDef.c_a node) actor wfes.origin_orgu_id
            (match_env wfes) now)
          own_step h in
      elim (Bool-cases (is_authorized own)) [
        | inl t ↦ inl (own, e, t)
        | inr f ↦ grants_step_sound node d (rw f at h1) a
      ]

  -- Who is let in at a node is in the node's own pool or fits a grant that is open on the node; and
  -- the node is one that the workflow has.
  pub authorize_node_sound :
      authorize_node host org now wfd wfes node_key actor ≡ ok true
      → (node : NodeDef) × (lookup node_key wfd.nodes ≡ some node) × MayWork node
  unfolding authorize_node authorize_node_decision
  authorize_node_sound h =
      let (d, e, h1) =
        >>=-eq-ok (authorize_node_decision host org now wfd wfes node_key actor)
          (λ d. ok (is_authorized d)) h in
      let a : is_authorized d ≡ true = cc in
      elim (Option-cases (lookup node_key wfd.nodes)) [
        | inl q ↦ absurd (let e' = rw (q, authorize_node_decision) at e in cc)
        | inr (node, q) ↦ (node, q, own_step_sound node d (rw (q, authorize_node_decision) at e) a)
      ]
