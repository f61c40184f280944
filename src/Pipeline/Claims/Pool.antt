-- ===== src/Pipeline/Claims/Pool.antt =====
-- crates/wfe-core/src/v22/pipeline.rs: who may claim, and that the claim and its preview ask one rule.
use agnoflow_engine.Prelude.{
  ◌≡◌, refl, true, false, Option, none, some, inl, inr, ◌↔◌, is_some, Bool-cases, Option-cases,
  Text, lookup, ok, >>=-eq-ok, sum_cases, arith,
}
use agnoflow_engine.Types.Actor.{Instant, Actor}
use agnoflow_engine.Types.Wfd.{NodeDef, Wfd}
use agnoflow_engine.Types.Wfes.{BranchState, Wfes}
use agnoflow_engine.Types.Host.{Host}
use agnoflow_engine.Access.Ports.{OrgPort}
use agnoflow_engine.Access.Matcher.{AuthDecision, is_authorized}
use agnoflow_engine.Access.Grants.{authorize_node, authorize_node_decision}
use agnoflow_engine.Pipeline.{is_terminal_class}
use agnoflow_engine.Pipeline.Sla.{deadline_due}
use agnoflow_engine.Pipeline.Rows.{active_branch}
use agnoflow_engine.Pipeline.Claims.{
  ClaimCheck, claimed_at_node, claim_node, can_claim, asked_node, claim_decision,
}

module _ (host : Host) (org : OrgPort) (now : Instant) (wfd : Wfd) (wfes : Wfes)
    (actor : Actor) where
  -- The node that is asked for is nobody's: the node of the instance, which is assigned to nobody, or
  -- that of an active branch, which nobody has claimed.
  pub data Free : Option Text → Text → Type 0 where
    whole : {node : Text} → wfes.assigned_to ≡ none → wfes.current_node ≡ some node → Free none node
    branch :
        {node : Text} {b : BranchState}
        → active_branch wfes node ≡ some b
        → b.claimed_by ≡ none
        → Free (some node) node

  -- A node without a call, whose pool or an open grant admits the actor.
  pub record Claimable (asked : Option Text) : Type 0 where
    pub node_key : Text
    pub node : NodeDef
    pub running : is_terminal_class wfes.status ≡ false
    pub in_time : deadline_due wfes now ≡ false
    pub free : Free asked node_key
    pub has_node : lookup node_key wfd.nodes ≡ some node
    pub no_call : is_some node.call ≡ false
    pub admitted : authorize_node host org now wfd wfes node_key actor ≡ ok true

  Free-sound :
      (asked : Option Text) {node : Text} → claimed_at_node wfes asked ≡ inr node → Free asked node
  Free-sound none {node} h = elim (Option-cases wfes.assigned_to) [
    | inr (u, e) ↦ absurd (let h' = rw e at h in cc)
    | inl e ↦ elim (Option-cases wfes.current_node) [
      | inl c ↦ absurd (let h' = rw (e, c) at h in cc)
      | inr (n, c) ↦ let h' = rw (e, c) at h in let q : n ≡ node = cc in whole e (rw (← q) c)
    ]
  ]
  Free-sound (some b) {node} h = elim (Option-cases (active_branch wfes b)) [
    | inl e ↦ absurd (let h' = rw e at h in cc)
    | inr (s, e) ↦ elim (Option-cases s.claimed_by) [
      | inr (u, c) ↦ absurd (let h' = rw (e, c) at h in cc)
      | inl c ↦ let h' = rw (e, c) at h in let q : b ≡ node = cc in rw (← q) (branch e c)
    ]
  ]

  -- no claim is granted before the pool is asked
  early : (asked : Option Text) → ¬ (claimed_at_node wfes asked ≡ inl ClaimCheck.claimable)
  early none h = elim (Option-cases wfes.assigned_to) [
    | inr (u, e) ↦ let h' = rw e at h in absurd (cc)
    | inl e ↦ elim (Option-cases wfes.current_node) [
      | inl c ↦ let h' = rw (e, c) at h in absurd (cc)
      | inr (n, c) ↦ let h' = rw (e, c) at h in absurd (cc)
    ]
  ]
  early (some b) h = elim (Option-cases (active_branch wfes b)) [
    | inl e ↦ let h' = rw e at h in absurd (cc)
    | inr (s, e) ↦ elim (Option-cases s.claimed_by) [
      | inr (u, c) ↦ let h' = rw (e, c) at h in absurd (cc)
      | inl c ↦ let h' = rw (e, c) at h in absurd (cc)
    ]
  ]

  claim_node_sound :
      (key : Text)
      → claim_node host org now wfd wfes actor key ≡ ok ClaimCheck.claimable
      → (node : NodeDef) × (lookup key wfd.nodes ≡ some node)
        × (is_some node.call ≡ false)
        × (authorize_node host org now wfd wfes key actor ≡ ok true)
  unfolding claim_node
  claim_node_sound key h = elim (Option-cases (lookup key wfd.nodes)) [
    | inl e ↦ absurd (let h' = rw (e, claim_node) at h in cc)
    | inr (node, e) ↦ elim (Bool-cases (is_some node.call)) [
      | inl c ↦ absurd (let h' = rw (e, c, claim_node) at h in cc)
      | inr c ↦
          let (may, a, k) =
            >>=-eq-ok (authorize_node host org now wfd wfes key actor) _
              (rw (e, c, claim_node) at h) in
          elim (Bool-cases may) [
            | inr f ↦ absurd (let k' = rw f at k in cc)
            | inl t ↦ (node, e, c, rw t at a)
          ]
    ]
  ]

  -- A claim is granted only on an instance that runs and is in time, at a node, or for a branch, that
  -- nobody has claimed and where no call is waited for, and only to an actor whom the node's pool or a
  -- grant that is open on it admits.
  pub can_claim_sound :
      (asked : Option Text)
      → can_claim host org now wfd wfes actor asked ≡ ok ClaimCheck.claimable
      → Claimable asked
  unfolding can_claim
  can_claim_sound asked h = elim (Bool-cases (is_terminal_class wfes.status)) [
    | inl t ↦ absurd (let h' = rw (t, can_claim) at h in cc)
    | inr t ↦ elim (Bool-cases (deadline_due wfes now)) [
      | inl d ↦ absurd (let h' = rw (t, d, can_claim) at h in cc)
      | inr d ↦ elim (sum_cases (claimed_at_node wfes asked)) [
        | inl (c, e) ↦
            let h' = rw (t, d, e, can_claim) at h in
            let q : c ≡ ClaimCheck.claimable = cc in absurd (early asked (rw q at e))
        | inr (key, e) ↦
            let (node, n, c, a) = claim_node_sound key (rw (t, d, e, can_claim) at h) in
            record {
              node_key = key;
              node = node;
              running = t;
              in_time = d;
              free = Free-sound asked e;
              has_node = n;
              no_call = c;
              admitted = a;
            }
      ]
    ]
  ]

  asked-Free :
      (asked : Option Text) {node : Text}
      → Free asked node
      → asked_node host org now wfd wfes actor asked ≡ some node
  asked-Free asked (whole _ c) = c
  asked-Free asked (branch _ _) = refl

  -- the preview's decision lets the actor in
  abbrev pub Previewed : Option Text → Type 0
  Previewed asked =
      (d : AuthDecision) × (claim_decision host org now wfd wfes actor asked ≡ ok d)
      × (is_authorized d ≡ true)

  preview_of :
      (asked : Option Text) {node : Text} (def : NodeDef)
      → Free asked node
      → lookup node wfd.nodes ≡ some def
      → is_some def.call ≡ false
      → claim_decision host org now wfd wfes actor asked
        ≡ authorize_node_decision host org now wfd wfes node actor
  unfolding claim_decision
  preview_of asked def free n c = rw (asked-Free asked free, n, c, claim_decision) refl

  -- Whatever the claim grants, its preview grants.
  claim-preview :
      (asked : Option Text)
      → can_claim host org now wfd wfes actor asked ≡ ok ClaimCheck.claimable
      → Previewed asked
  unfolding authorize_node
  claim-preview asked h =
      let c = can_claim_sound asked h in
      let (d, e, k) =
        >>=-eq-ok (authorize_node_decision host org now wfd wfes c.node_key actor) _ c.admitted in
      (d, rw (preview_of asked c.node c.free c.has_node c.no_call) e, cc)

  -- Whatever the preview grants on an instance that runs and is in time, where nobody has claimed the
  -- node, the claim grants.
  preview-claim :
      (asked : Option Text) {node : Text}
      → is_terminal_class wfes.status ≡ false
      → deadline_due wfes now ≡ false
      → claimed_at_node wfes asked ≡ inr node
      → Previewed asked
      → can_claim host org now wfd wfes actor asked ≡ ok ClaimCheck.claimable
  unfolding can_claim claim_node claim_decision authorize_node
  preview-claim asked {node} run time free (d, h, a) =
      let q = asked-Free asked (Free-sound asked free) in
      elim (Option-cases (lookup node wfd.nodes)) [
        | inl e ↦ absurd (let h' = rw (q, e, claim_decision) at h in ground arith)
        | inr (def, e) ↦ elim (Bool-cases (is_some def.call)) [
          | inl c ↦ absurd (let h' = rw (q, e, c, claim_decision) at h in ground arith)
          | inr c ↦
              let h' = rw (q, e, c, claim_decision) at h in
              rw (run, time, free, e, c, can_claim, claim_node, authorize_node, h', a) refl
        ]
      ]

  -- On an instance that runs and is in time, at a node or for a branch that nobody has claimed, the
  -- claim is granted exactly when its preview says so.
  pub can_claim_iff :
      (asked : Option Text) {node : Text}
      → is_terminal_class wfes.status ≡ false
      → deadline_due wfes now ≡ false
      → claimed_at_node wfes asked ≡ inr node
      → (can_claim host org now wfd wfes actor asked ≡ ok ClaimCheck.claimable) ↔ Previewed asked
  can_claim_iff asked run time free = (claim-preview asked, preview-claim asked run time free)
