-- ===== src/Access/Matcher/Complete.antt =====
-- crates/wfe-core/src/v22/matcher.rs: whoever fits a rule is admitted.
use agnoflow_engine.Prelude.{
  ◌≡◌, ◌⊎◌, refl, Bool, true, false, Option, none, some, List, [], ◌∷◌, Memᴰ, inl, inr, arith, ◌==◌,
  Bool-cases, Text, text_eq, text_eq_refl, any, mem-any, is_some, unwrap_or, ok,
}
use agnoflow_engine.Types.Json.{Json}
use agnoflow_engine.Types.Actor.{Uuid, Actor, OrgUnit}
use agnoflow_engine.Types.Wfd.{CandidateActor, COrgu}
use agnoflow_engine.Types.Host.{Host}
use agnoflow_engine.Access.Ports.{OrgPort}
use agnoflow_engine.Access.Matcher.{
  MatchEnv, wanted, unit_admits, role_admits, ident_admits, names_admit, user_admits,
  authorize_anchored,
}
use agnoflow_engine.Access.Matcher.Rule.{UnitFits, RoleFits, UserFits}

module _ (host : Host) (org : OrgPort) where
  unit_admits_complete :
      (c : Option COrgu) (actor : Actor) (anchor : Uuid) (env : MatchEnv)
      → UnitFits host org c actor anchor env
      → unit_admits host org c actor anchor env ≡ ok true
  unfolding unit_admits
  unit_admits_complete none actor anchor env h = refl
  unit_admits_complete (some c) actor anchor env (units, e, u, m, t) =
      rw (
        e,
        unit_admits,
        mem-any (λ (v : OrgUnit). v.orgu_id == actor.orgu_id) units m (ground arith),
      )

  names_admit_complete :
      (names : List Text) (actor : Actor) (name : Text) {known : Option Text}
      → Memᴰ name names
      → org.user_ident actor.user_id ≡ ok known
      → (name ≡ host.uuid_text actor.user_id) ⊎ (org.user_ident actor.user_id ≡ ok (some name))
      → names_admit host org names actor ≡ ok true
  unfolding names_admit ident_admits
  names_admit_complete [] actor name m known h = elim m [ ]
  names_admit_complete (n ∷ names) actor name m known (inl e) = rw (
    mem-any (λ u. text_eq u (host.uuid_text actor.user_id)) (n ∷ names) m
        (rw e (text_eq_refl (host.uuid_text actor.user_id))),
    names_admit,
  )
  names_admit_complete (n ∷ names) actor name m known (inr e) =
      elim (Bool-cases (any (λ u. text_eq u (host.uuid_text actor.user_id)) (n ∷ names))) [
        | inl t ↦ rw (t, names_admit)
        | inr f ↦
            rw (f, names_admit, e, mem-any (λ u. text_eq u name) (n ∷ names) m (text_eq_refl name))
      ]

  role_admits_complete :
      (rule : CandidateActor) (actor : Actor)
      → RoleFits host org rule actor
      → role_admits host org rule.c_r (is_some rule.c_orgu) actor ≡ ok true
  unfolding role_admits
  role_admits_complete rule actor fits = rw (
    fits.listed,
    fits.anchored,
    role_admits,
    mem-any (λ r. text_eq r actor.role) fits.roles fits.member (text_eq_refl actor.role),
    fits.assigned,
  )

  role_admits_answers :
      (c_r : Option (List Text)) (anchored : Bool) (actor : Actor) {assigned : Bool}
      → org.check_user_role actor.user_id actor.orgu_id actor.role ≡ ok assigned
      → (r : Bool) × (role_admits host org c_r anchored actor ≡ ok r)
  unfolding role_admits
  role_admits_answers none anchored actor h = (false, refl)
  role_admits_answers (some roles) false actor h = (false, refl)
  role_admits_answers (some roles) true actor {assigned} h =
      elim (Bool-cases (any (λ r. text_eq r actor.role) roles)) [
        | inl t ↦ (assigned, rw (t, role_admits, h))
        | inr f ↦ (false, rw (f, role_admits))
      ]

  user_admits_complete :
      (rule : CandidateActor) (actor : Actor) (context : Json) {known : Option Text}
      → UserFits host org rule actor context
      → org.user_ident actor.user_id ≡ ok known
      → user_admits host org rule.c_u actor context ≡ ok true
  unfolding user_admits
  user_admits_complete rule actor context fits rk = rw (
    fits.listed,
    user_admits,
    names_admit_complete (wanted context fits.items) actor fits.name fits.member rk fits.named,
  )

  -- An actor who fits the rule is admitted, if the store answers what the matcher asks it of the
  -- actor's role and name.
  pub authorize_anchored_complete :
      (rule : CandidateActor) (actor : Actor) (anchor : Option Uuid) (env : MatchEnv)
      (assigned : Bool) (known : Option Text)
      → org.check_user_role actor.user_id actor.orgu_id actor.role ≡ ok assigned
      → org.user_ident actor.user_id ≡ ok known
      → UnitFits host org rule.c_orgu actor (unwrap_or anchor actor.orgu_id) env
      → RoleFits host org rule actor ⊎ UserFits host org rule actor env.context
      → authorize_anchored host org rule actor anchor env ≡ ok true
  unfolding authorize_anchored
  authorize_anchored_complete rule actor anchor env assigned known ra rk unit (inl fits) = rw (
    unit_admits_complete rule.c_orgu actor (unwrap_or anchor actor.orgu_id) env unit,
    authorize_anchored,
    role_admits_complete rule actor fits,
  )
  authorize_anchored_complete rule actor anchor env assigned known ra rk unit (inr fits) =
      let (r, e) = role_admits_answers rule.c_r (is_some rule.c_orgu) actor ra in
      elim (Bool-cases r) [
        | inl t ↦ rw (
          unit_admits_complete rule.c_orgu actor (unwrap_or anchor actor.orgu_id) env unit,
          authorize_anchored,
          e,
          t,
        )
        | inr f ↦ rw (
          unit_admits_complete rule.c_orgu actor (unwrap_or anchor actor.orgu_id) env unit,
          authorize_anchored,
          e,
          f,
          user_admits_complete rule actor env.context fits rk,
        )
      ]
