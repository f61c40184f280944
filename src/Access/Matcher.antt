-- ===== src/Access/Matcher.antt =====
-- crates/wfe-core/src/v22/matcher.rs: does a candidate-actor rule admit an actor, in person or by
-- a delegation? `now` stands for `Utc::now()`.
pub mod Rule
pub mod Complete
pub mod Delegated
use agnoflow_engine.Prelude.{
  Bool, true, false, not, Option, none, some, List, [], ◌∷◌, if◌then◌else◌, ◌==◌, Text, text_eq,
  any, is_some, filter_map, unwrap_or, ok, ◌>>=◌,
}
use agnoflow_engine.Types.Json.{Json}
use agnoflow_engine.Types.Errors.{Fallible}
use agnoflow_engine.Types.Actor.{Uuid, Instant, Actor, OrgUnit, DelegationGrant}
use agnoflow_engine.Types.Wfah.{Wfah}
use agnoflow_engine.Types.Wfd.{CandidateActor, CuItem, literal, ref, COrgu}
use agnoflow_engine.Types.Host.{Host}
use agnoflow_engine.Access.Ports.{OrgPort}
use agnoflow_engine.Access.Resolver.{resolve_c_orgu, resolve_cu_ident}

pub record MatchEnv : Type 0 where
  pub context : Json
  pub ledger : Wfah
  pub orgtnt_id : Uuid

pub data AuthDecision : Type 0 where
  denied direct : AuthDecision
  -- delegation, delegator, the seat's unit and role
  delegated : Uuid → Uuid → Uuid → Text → AuthDecision

abbrev pub is_authorized : AuthDecision → Bool
is_authorized denied = false
is_authorized direct = true
is_authorized (delegated d u o r) = true

-- the identities that `c_u` names; a reference that does not resolve names none
unfoldable pub wanted_ident : Json → CuItem → Option Text
wanted_ident context (literal s) = some s
wanted_ident context (ref path) = resolve_cu_ident path context

abbrev pub wanted : Json → List CuItem → List Text
wanted context = filter_map (wanted_ident context)

-- the actor who stands in for the delegator's seat
abbrev pub seat : DelegationGrant → Actor
seat g = record { orgu_id = g.seat_orgu_id; user_id = g.delegator_user_id; role = g.seat_role }

abbrev pub decision_of : DelegationGrant → AuthDecision
decision_of g = delegated g.delegation_id g.delegator_user_id g.seat_orgu_id g.seat_role

module _ (host : Host) (org : OrgPort) where
  -- step 1: is the actor's unit among those that the rule names?
  unfoldable pub unit_admits : Option COrgu → Actor → Uuid → MatchEnv → Fallible Bool
  unit_admits none actor anchor env = ok true
  unit_admits (some c_orgu) actor anchor env =
      resolve_c_orgu host org c_orgu anchor env.context env.ledger env.orgtnt_id >>= λ units.
      ok (any (λ (u : OrgUnit). u.orgu_id == actor.orgu_id) units)

  -- step 2: a role that the rule lists and the store confirms, in a rule with an anchor
  pub role_admits : Option (List Text) → Bool → Actor → Fallible Bool
  role_admits (some c_r) true actor =
      if any (λ r. text_eq r actor.role) c_r
      then org.check_user_role actor.user_id actor.orgu_id actor.role
      else ok false
  role_admits _ _ actor = ok false

  -- the store is asked for the actor's name only where the id did not match
  pub ident_admits : List Text → Actor → Fallible Bool
  ident_admits [] actor = ok false
  ident_admits names actor = org.user_ident actor.user_id >>= λ (ident : Option Text). elim ident [
    | none ↦ ok false
    | some i ↦ ok (any (λ u. text_eq u i) names)
  ]

  pub names_admit : List Text → Actor → Fallible Bool
  unfolding ident_admits
  names_admit names actor =
      if any (λ u. text_eq u (host.uuid_text actor.user_id)) names
      then ok true
      else ident_admits names actor

  -- step 3: the person, whatever the role
  unfoldable pub user_admits : Option (List CuItem) → Actor → Json → Fallible Bool
  unfolding names_admit wanted_ident
  user_admits none actor context = ok false
  user_admits (some c_u) actor context = names_admit (wanted context c_u) actor

  unfoldable pub authorize_anchored :
      CandidateActor → Actor → Option Uuid → MatchEnv → Fallible Bool
  unfolding unit_admits role_admits user_admits
  authorize_anchored rule actor anchor env = do
    in_unit ← unit_admits rule.c_orgu actor (unwrap_or anchor actor.orgu_id) env
    if not in_unit then ok false else do
      by_role ← role_admits rule.c_r (is_some rule.c_orgu) actor
      if by_role then ok true else user_admits rule.c_u actor env.context

  unfoldable pub authorize : CandidateActor → Actor → MatchEnv → Fallible Bool
  unfolding authorize_anchored
  authorize rule actor env = authorize_anchored rule actor none env

  -- the loop over the delegations that are active for the actor
  pub try_grants :
      CandidateActor → Actor → Option Uuid → MatchEnv → List DelegationGrant → Fallible AuthDecision
  unfolding authorize
  try_grants rule actor anchor env [] = ok denied
  try_grants rule actor anchor env (g ∷ grants) =
      let rest = try_grants rule actor anchor env grants in
      authorize g.grantee actor env >>= λ mine.
      if not mine
      then rest
      else authorize_anchored rule (seat g) anchor env >>= λ seated.
          if seated then ok (decision_of g) else rest

  unfoldable pub authorize_with_delegation_anchored :
      CandidateActor → Actor → Option Uuid → MatchEnv → Instant → Fallible AuthDecision
  unfolding try_grants
  authorize_with_delegation_anchored rule actor anchor env now =
      authorize_anchored rule actor anchor env >>= λ mine.
      if mine
      then ok direct
      else org.active_delegations_for actor.user_id env.orgtnt_id now
        >>= try_grants rule actor anchor env

  unfoldable pub authorize_or_delegated_anchored :
      CandidateActor → Actor → Option Uuid → MatchEnv → Instant → Fallible Bool
  unfolding authorize_with_delegation_anchored
  authorize_or_delegated_anchored rule actor anchor env now =
      authorize_with_delegation_anchored rule actor anchor env now >>= λ d. ok (is_authorized d)
