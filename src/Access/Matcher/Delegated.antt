-- ===== src/Access/Matcher/Delegated.antt =====
-- crates/wfe-core/src/v22/matcher.rs: what the provenance of a decision says. A portal shows it and
-- the ledger records it, so that it has to name the delegation that admits the actor.
use agnoflow_engine.Prelude.{
  ◌≡◌, refl, sym, subst, Bool, true, false, not, Option, List, [], ◌∷◌, Memᴰ, Memᴰ-cases, inl, inr,
  ◌⊎◌, if◌then◌else◌, Bool-cases, ok, ◌>>=◌, >>=-eq-ok,
}
use agnoflow_engine.Types.Actor.{Uuid, Instant, Actor, DelegationGrant}
use agnoflow_engine.Types.Errors.{Fallible}
use agnoflow_engine.Types.Wfd.{CandidateActor}
use agnoflow_engine.Types.Host.{Host}
use agnoflow_engine.Access.Ports.{OrgPort}
use agnoflow_engine.Access.Matcher.{
  MatchEnv, AuthDecision, denied, direct, delegated, seat, decision_of, authorize,
  authorize_anchored, try_grants, authorize_with_delegation_anchored,
}

module _ (host : Host) (org : OrgPort) (rule : CandidateActor) (actor : Actor)
    (anchor : Option Uuid) (env : MatchEnv) where
  -- The actor fits the grantee's rule, and the seat that it stands in for fits the rule asked.
  abbrev pub Admits : DelegationGrant → Type 0
  Admits g =
      (authorize host org g.grantee actor env ≡ ok true)
      × (authorize_anchored host org rule (seat g) anchor env ≡ ok true)

  abbrev pub FromGrants : List DelegationGrant → AuthDecision → Type 0
  FromGrants grants d =
      ((d ≡ denied) × ((g : DelegationGrant) → Memᴰ g grants → ¬ Admits g))
      ⊎ ((g : DelegationGrant) × Memᴰ g grants × Admits g × (d ≡ decision_of g))

  -- What a decision claims, by its provenance.
  abbrev pub Justified : Instant → AuthDecision → Type 0
  Justified now denied =
      (authorize_anchored host org rule actor anchor env ≡ ok false)
      × (grants : List DelegationGrant) × (org.active_delegations_for actor.user_id env.orgtnt_id
            now
          ≡ ok grants)
      × ((g : DelegationGrant) → Memᴰ g grants → ¬ Admits g)
  Justified now direct = authorize_anchored host org rule actor anchor env ≡ ok true
  Justified now (delegated d u o r) =
      (authorize_anchored host org rule actor anchor env ≡ ok false)
      × (grants : List DelegationGrant) × (org.active_delegations_for actor.user_id env.orgtnt_id
            now
          ≡ ok grants)
      × (g : DelegationGrant) × Memᴰ g grants
      × Admits g
      × (delegated d u o r ≡ decision_of g)

  false-not-true : {m : Fallible Bool} → m ≡ ok false → ¬ (m ≡ ok true)
  false-not-true f t = absurd (cc)

  skip :
      (g : DelegationGrant) (grants : List DelegationGrant) (d : AuthDecision)
      → ¬ Admits g
      → FromGrants grants d
      → FromGrants (g ∷ grants) d
  skip g grants d refuses (inl (e, none_admits)) = inl (
    e,
    λ g' m. elim (Memᴰ-cases m) [
      | inl q ↦ λ a. refuses (subst Admits q a)
      | inr m' ↦ none_admits g' m'
    ],
  )
  skip g grants d refuses (inr (g', m, a, e)) = inr (g', Memᴰ.tail m, a, e)

  -- what the loop does with the answers to its two questions
  abbrev seat_step : DelegationGrant → Fallible AuthDecision → Bool → Fallible AuthDecision
  seat_step g rest seated = if seated then ok (decision_of g) else rest

  abbrev grantee_step : DelegationGrant → Fallible AuthDecision → Bool → Fallible AuthDecision
  grantee_step g rest mine =
      if not mine
      then rest
      else authorize_anchored host org rule (seat g) anchor env >>= seat_step g rest

  seated_sound :
      (g : DelegationGrant) (grants : List DelegationGrant) (rest : Fallible AuthDecision)
      (d : AuthDecision)
      → (rest ≡ ok d → FromGrants grants d)
      → authorize host org g.grantee actor env ≡ ok true
      → (authorize_anchored host org rule (seat g) anchor env >>= seat_step g rest) ≡ ok d
      → FromGrants (g ∷ grants) d
  seated_sound g grants rest d ih mine h =
      let (b, e, h1) =
        >>=-eq-ok (authorize_anchored host org rule (seat g) anchor env) (seat_step g rest) h in
      elim (Bool-cases b) [
        | inl t ↦
            let q : ok (decision_of g) ≡ ok d = rw t at h1 in
            inr (g, Memᴰ.head refl, (mine, rw t at e), cc)
        | inr f ↦ skip g grants d (λ a. false-not-true (rw f at e) a.1) (ih (rw f at h1))
      ]

  grantee_sound :
      (g : DelegationGrant) (grants : List DelegationGrant) (rest : Fallible AuthDecision)
      (d : AuthDecision)
      → (rest ≡ ok d → FromGrants grants d)
      → (authorize host org g.grantee actor env >>= grantee_step g rest) ≡ ok d
      → FromGrants (g ∷ grants) d
  grantee_sound g grants rest d ih h =
      let (b, e, h1) = >>=-eq-ok (authorize host org g.grantee actor env) (grantee_step g rest) h in
      elim (Bool-cases b) [
        | inl t ↦ seated_sound g grants rest d ih (rw t at e) (rw t at h1)
        | inr f ↦ skip g grants d (λ a. false-not-true (rw f at e) a.0) (ih (rw f at h1))
      ]

  try_grants_sound :
      (grants : List DelegationGrant) (d : AuthDecision)
      → try_grants host org rule actor anchor env grants ≡ ok d
      → FromGrants grants d
  unfolding try_grants
  try_grants_sound [] d h = let q : d ≡ denied = cc in inl (q, λ g m. elim m [ ])
  try_grants_sound (g ∷ grants) d h =
      grantee_sound g grants (try_grants host org rule actor anchor env grants) d
        (try_grants_sound grants d) h

  from_grants :
      (now : Instant) (grants : List DelegationGrant) (d : AuthDecision)
      → authorize_anchored host org rule actor anchor env ≡ ok false
      → org.active_delegations_for actor.user_id env.orgtnt_id now ≡ ok grants
      → FromGrants grants d
      → Justified now d
  from_grants now grants d not_own e (inl (q, refuses)) =
      subst (Justified now) (sym q) (not_own, grants, e, refuses)
  from_grants now grants d not_own e (inr (g, m, a, q)) =
      subst (Justified now) (sym q) (not_own, grants, e, g, m, a, refl)

  -- A decision holds what its provenance says. A direct one: the rule admits the actor. A delegated
  -- one: the rule does not, and the delegation named is one of those active for the actor, its
  -- grantee rule admits the actor, and the rule admits the seat that it names. A denial: the rule
  -- does not admit the actor, and no active delegation has both.
  pub authorize_with_delegation_anchored_sound :
      (now : Instant) (d : AuthDecision)
      → authorize_with_delegation_anchored host org rule actor anchor env now ≡ ok d
      → Justified now d
  unfolding authorize_with_delegation_anchored
  authorize_with_delegation_anchored_sound now d h =
      let (b, e, h1) =
        >>=-eq-ok (authorize_anchored host org rule actor anchor env)
          (λ mine.
            if mine
            then ok direct
            else org.active_delegations_for actor.user_id env.orgtnt_id now
              >>= try_grants host org rule actor anchor env)
          h in
      elim (Bool-cases b) [
        | inl t ↦
            let q0 : ok direct ≡ ok d = rw t at h1 in
            let q : direct ≡ d = cc in subst (Justified now) q (rw t at e)
        | inr f ↦
            let (grants, e1, h2) =
              >>=-eq-ok (org.active_delegations_for actor.user_id env.orgtnt_id now)
                (try_grants host org rule actor anchor env) (rw f at h1) in
            from_grants now grants d (rw f at e) e1 (try_grants_sound grants d h2)
      ]
