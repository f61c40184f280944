-- ===== src/Access/Matcher/Rule.antt =====
-- crates/wfe-core/src/v22/matcher.rs against the rule that its header states: an actor is admitted
-- if its unit is one that the rule names, and its role or its person is.
use agnoflow_engine.Prelude.{
  ◌≡◌, ◌⊎◌, refl, Bool, true, false, not, Option, none, some, List, [], ◌∷◌, Memᴰ, inl, inr, arith,
  if◌then◌else◌, ◌==◌, Bool-cases, Text, text_eq, text_eq_sound, any, any-mem, is_some, unwrap_or,
  ok, ◌>>=◌, >>=-eq-ok,
}
use agnoflow_engine.Types.Json.{Json}
use agnoflow_engine.Types.Actor.{Uuid, Actor, OrgUnit}
use agnoflow_engine.Types.Errors.{Fallible}
use agnoflow_engine.Types.Wfd.{CandidateActor, CuItem, COrgu}
use agnoflow_engine.Types.Host.{Host}
use agnoflow_engine.Access.Ports.{OrgPort}
use agnoflow_engine.Access.Resolver.{resolve_c_orgu}
use agnoflow_engine.Access.Matcher.{
  MatchEnv, wanted, unit_admits, role_admits, ident_admits, names_admit, user_admits,
  authorize_anchored,
}

module _ (host : Host) (org : OrgPort) where
  -- The actor's unit is one that the rule resolves to; a rule without units does not ask.
  abbrev pub UnitFits : Option COrgu → Actor → Uuid → MatchEnv → Type 0
  UnitFits none actor anchor env = Unit
  UnitFits (some c) actor anchor env =
      (units : List OrgUnit) × (resolve_c_orgu host org c anchor env.context env.ledger
          env.orgtnt_id
        ≡ ok units)
      × (u : OrgUnit) × Memᴰ u units
      × (u.orgu_id ≡ actor.orgu_id)

  -- The rule names units, lists the actor's role, and the store has assigned it.
  pub record RoleFits (rule : CandidateActor) (actor : Actor) : Type 0 where
    pub roles : List Text
    pub listed : rule.c_r ≡ some roles
    pub anchored : is_some rule.c_orgu ≡ true
    pub member : Memᴰ actor.role roles
    pub assigned : org.check_user_role actor.user_id actor.orgu_id actor.role ≡ ok true

  -- The rule names the person, by id or by the name that the store has.
  pub record UserFits (rule : CandidateActor) (actor : Actor) (context : Json) : Type 0 where
    pub items : List CuItem
    pub listed : rule.c_u ≡ some items
    pub name : Text
    pub member : Memᴰ name (wanted context items)
    pub named :
        (name ≡ host.uuid_text actor.user_id) ⊎ (org.user_ident actor.user_id ≡ ok (some name))

  pub unit_admits_sound :
      (c : Option COrgu) (actor : Actor) (anchor : Uuid) (env : MatchEnv)
      → unit_admits host org c actor anchor env ≡ ok true
      → UnitFits c actor anchor env
  unfolding unit_admits
  unit_admits_sound none actor anchor env h = tt
  unit_admits_sound (some c) actor anchor env h =
      let (units, e, e') =
        >>=-eq-ok (resolve_c_orgu host org c anchor env.context env.ledger env.orgtnt_id)
          (λ units. ok (any (λ (u : OrgUnit). u.orgu_id == actor.orgu_id) units)) h in
      let (u, m, t) = any-mem (λ (u : OrgUnit). u.orgu_id == actor.orgu_id) units (ground arith) in
      (units, e, u, m, ground arith)

  role_admits_sound :
      (c_r : Option (List Text)) (anchored : Bool) (actor : Actor)
      → role_admits host org c_r anchored actor ≡ ok true
      → (roles : List Text) × (c_r ≡ some roles)
        × (anchored ≡ true)
        × Memᴰ actor.role roles
        × (org.check_user_role actor.user_id actor.orgu_id actor.role ≡ ok true)
  unfolding role_admits
  role_admits_sound none anchored actor h = absurd (cc)
  role_admits_sound (some roles) false actor h = absurd (cc)
  role_admits_sound (some roles) true actor h =
      elim (Bool-cases (any (λ r. text_eq r actor.role) roles)) [
        | inl t ↦
            let (r, m, q) = any-mem (λ r. text_eq r actor.role) roles t in
            (roles, refl, refl, rw (← text_eq_sound r actor.role q) m, rw t at h)
        | inr f ↦ absurd (let h' = rw f at h in cc)
      ]

  abbrev ident_test : List Text → Option Text → Fallible Bool
  ident_test names ident = elim ident [
    | none ↦ ok false
    | some i ↦ ok (any (λ u. text_eq u i) names)
  ]

  ident_test_sound :
      (names : List Text) (ident : Option Text)
      → ident_test names ident ≡ ok true
      → (name : Text) × Memᴰ name names × (ident ≡ some name)
  ident_test_sound names none h = absurd (cc)
  ident_test_sound names (some i) h =
      let (u, m, q) = any-mem (λ u. text_eq u i) names (ground arith) in
      (u, m, rw (text_eq_sound u i q))

  ident_admits_sound :
      (names : List Text) (actor : Actor)
      → ident_admits host org names actor ≡ ok true
      → (name : Text) × Memᴰ name names × (org.user_ident actor.user_id ≡ ok (some name))
  unfolding ident_admits
  ident_admits_sound [] actor h = absurd (cc)
  ident_admits_sound (n ∷ names) actor h =
      let (ident, e, e') = >>=-eq-ok (org.user_ident actor.user_id) (ident_test (n ∷ names)) h in
      let (name, m, q) = ident_test_sound (n ∷ names) ident e' in (name, m, rw e (rw q))

  names_admit_sound :
      (names : List Text) (actor : Actor)
      → names_admit host org names actor ≡ ok true
      → (name : Text) × Memᴰ name names
        × ((name ≡ host.uuid_text actor.user_id) ⊎ (org.user_ident actor.user_id ≡ ok (some name)))
  unfolding names_admit
  names_admit_sound names actor h =
      elim (Bool-cases (any (λ u. text_eq u (host.uuid_text actor.user_id)) names)) [
        | inl t ↦
            let (u, m, q) = any-mem (λ u. text_eq u (host.uuid_text actor.user_id)) names t in
            (u, m, inl (text_eq_sound u (host.uuid_text actor.user_id) q))
        | inr f ↦
            let (name, m, q) = ident_admits_sound names actor (rw (f, names_admit) at h) in
            (name, m, inr q)
      ]

  pub user_admits_sound :
      (c_u : Option (List CuItem)) (actor : Actor) (context : Json)
      → user_admits host org c_u actor context ≡ ok true
      → (items : List CuItem) × (c_u ≡ some items)
        × (name : Text) × Memᴰ name (wanted context items)
        × ((name ≡ host.uuid_text actor.user_id) ⊎ (org.user_ident actor.user_id ≡ ok (some name)))
  unfolding user_admits
  user_admits_sound none actor context h = absurd (cc)
  user_admits_sound (some items) actor context h =
      let (name, m, q) = names_admit_sound (wanted context items) actor h in
      (items, refl, name, m, q)

  -- the steps after the unit
  abbrev after_role : CandidateActor → Actor → MatchEnv → Bool → Fallible Bool
  after_role rule actor env by_role =
      if by_role then ok true else user_admits host org rule.c_u actor env.context

  abbrev after_unit : CandidateActor → Actor → MatchEnv → Fallible Bool
  after_unit rule actor env =
      role_admits host org rule.c_r (is_some rule.c_orgu) actor >>= after_role rule actor env

  role_fits :
      (rule : CandidateActor) (actor : Actor)
      → role_admits host org rule.c_r (is_some rule.c_orgu) actor ≡ ok true
      → RoleFits rule actor
  role_fits rule actor h =
      let (roles, e, a, m, q) = role_admits_sound rule.c_r (is_some rule.c_orgu) actor h in
      record { roles = roles; listed = e; anchored = a; member = m; assigned = q }

  user_fits :
      (rule : CandidateActor) (actor : Actor) (context : Json)
      → user_admits host org rule.c_u actor context ≡ ok true
      → UserFits rule actor context
  user_fits rule actor context h =
      let (items, e, name, m, q) = user_admits_sound rule.c_u actor context h in
      record { items = items; listed = e; name = name; member = m; named = q }

  after_unit_sound :
      (rule : CandidateActor) (actor : Actor) (env : MatchEnv)
      → after_unit rule actor env ≡ ok true
      → RoleFits rule actor ⊎ UserFits rule actor env.context
  after_unit_sound rule actor env h =
      let (r, e, h1) =
        >>=-eq-ok (role_admits host org rule.c_r (is_some rule.c_orgu) actor)
          (after_role rule actor env) h in
      elim (Bool-cases r) [
        | inl t ↦ inl (role_fits rule actor (rw t at e))
        | inr f ↦ inr (user_fits rule actor env.context (rw f at h1))
      ]

  -- An actor whom the matcher admits fits the rule: its unit is among those that the rule names,
  -- and its role or its person is. Without units in the rule it is the person.
  pub authorize_anchored_sound :
      (rule : CandidateActor) (actor : Actor) (anchor : Option Uuid) (env : MatchEnv)
      → authorize_anchored host org rule actor anchor env ≡ ok true
      → UnitFits rule.c_orgu actor (unwrap_or anchor actor.orgu_id) env
        × (RoleFits rule actor ⊎ UserFits rule actor env.context)
  unfolding authorize_anchored
  authorize_anchored_sound rule actor anchor env h =
      let (u, e, h1) =
        >>=-eq-ok (unit_admits host org rule.c_orgu actor (unwrap_or anchor actor.orgu_id) env)
          (λ b. if not b then ok false else after_unit rule actor env) h in
      elim (Bool-cases u) [
        | inl t ↦ (
          unit_admits_sound rule.c_orgu actor (unwrap_or anchor actor.orgu_id) env (rw t at e),
          after_unit_sound rule actor env (rw t at h1),
        )
        | inr f ↦ absurd (let h' = rw f at h1 in cc)
      ]
