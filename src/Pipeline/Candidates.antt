-- ===== src/Pipeline/Candidates.antt =====
-- crates/wfe-core/src/v22/pipeline.rs: who may work where a transition arrives (`candidates_at`),
-- resolved for the store's columns.
pub mod Stamped
use agnoflow_engine.Prelude.{
  ℕ, Bool, true, false, ◌&&◌, not, Option, none, some, List, [], ◌∷◌, ◌++◌, ◌==◌, if◌then◌else◌,
  Text, codes, text_eq, opt_eq, any, map, lookup, map_opt, Result, ok, err, ◌>>=◌,
}
use agnoflow_engine.Types.Json.{Json}
use agnoflow_engine.Types.Errors.{Fallible, invalid_wfd}
use agnoflow_engine.Types.Actor.{Uuid, OrgUnit, ClaimAuthority, ca, grant, ResolvedCandidate}
use agnoflow_engine.Types.Wfah.{Wfah}
use agnoflow_engine.Types.Wfd.{CandidateActor, CaGrantRule, COrgu, CuItem, NodeDef, Wfd}
use agnoflow_engine.Types.Host.{Host}
use agnoflow_engine.Types.Commit.{CallSite}
use agnoflow_engine.Outcome.{CommitOutcome, Resolution, resolution, fork_to}
use agnoflow_engine.Access.Ports.{OrgPort}
use agnoflow_engine.Access.Resolver.{resolve_c_orgu}
use agnoflow_engine.Access.Matcher.{wanted}
use agnoflow_engine.Access.Grants.{open_grants}

abbrev pub same_flag : Bool → Bool → Bool
same_flag true b = b
same_flag false b = not b

-- `same_actor`: all but the authority
pub same_actor : ResolvedCandidate → ResolvedCandidate → Bool
same_actor a b =
    opt_eq ◌==◌ a.orgu_id b.orgu_id
    && (text_eq a.role b.role
        && (opt_eq ◌==◌ a.user_id b.user_id
            && (opt_eq text_eq a.user_ident b.user_ident && same_flag a.any_orgu b.any_orgu)))

abbrev pub stamp : ClaimAuthority → ResolvedCandidate → ResolvedCandidate
stamp authority c = record c { authority = some authority }

abbrev role_candidate : OrgUnit → Text → ResolvedCandidate
role_candidate unit role = record {
  orgu_id = some unit.orgu_id;
  role = role;
  user_id = none;
  user_ident = none;
  any_orgu = false;
  authority = none;
}

abbrev role_candidates : List OrgUnit → List Text → List ResolvedCandidate
role_candidates [] roles = []
role_candidates (u ∷ us) roles = map (role_candidate u) roles ++ role_candidates us roles

-- the role channel, of a rule with an anchor
abbrev by_roles : Option (List Text) → Option (List OrgUnit) → List ResolvedCandidate
by_roles (some roles) (some units) = role_candidates units roles
by_roles _ _ = []

abbrev person : Option Uuid → Option Text → Option OrgUnit → ResolvedCandidate
person user_id user_ident unit = record {
  orgu_id = map_opt OrgUnit.orgu_id unit;
  role = [];
  user_id = user_id;
  user_ident = user_ident;
  any_orgu = agnoflow_engine.Prelude.is_none unit;
  authority = none;
}

abbrev in_units :
    Option (List OrgUnit) → (Option OrgUnit → ResolvedCandidate) → List ResolvedCandidate
in_units none f = f none ∷ []
in_units (some units) f = map (λ u. f (some u)) units

-- The candidates that the grants add, each where it is not there yet.
pub add_granted : List ResolvedCandidate → List ResolvedCandidate → List ResolvedCandidate
unfolding same_actor
add_granted out [] = out
add_granted out (c ∷ cs) =
    add_granted (if any (λ o. same_actor o c) out then out else out ++ stamp grant c ∷ []) cs

module _ (host : Host) (org : OrgPort) where
  abbrev named_person : Text → Option OrgUnit → ResolvedCandidate
  named_person ident unit = elim (host.parse_uuid ident) [
    | ok id ↦ person (some id) none unit
    | err e ↦ person none (some ident) unit
  ]

  abbrev by_idents : List Text → Option (List OrgUnit) → List ResolvedCandidate
  by_idents [] units = []
  by_idents (i ∷ is) units = in_units units (named_person i) ++ by_idents is units

  abbrev by_users : Option (List CuItem) → Json → Option (List OrgUnit) → List ResolvedCandidate
  by_users none context units = []
  by_users (some users) context units = by_idents (wanted context users) units

  module _ (context : Json) (wfah : Wfah) (anchor_orgu orgtnt_id : Uuid) where
    abbrev units_of : Option COrgu → Fallible (Option (List OrgUnit))
    units_of none = ok none
    units_of (some c) =
        resolve_c_orgu host org c anchor_orgu context wfah orgtnt_id >>= λ units. ok (some units)

    pub resolve_candidates : CandidateActor → Fallible (List ResolvedCandidate)
    resolve_candidates rule = units_of rule.c_orgu >>= λ units.
        ok (by_roles rule.c_r units ++ by_users rule.c_u context units)

    -- the loop over the grants that are open on the node
    pub with_grants : List CaGrantRule → List ResolvedCandidate → Fallible (List ResolvedCandidate)
    unfolding resolve_candidates add_granted
    with_grants [] out = ok out
    with_grants (g ∷ gs) out =
        resolve_candidates g.c_a >>= λ extra. with_grants gs (add_granted out extra)

    unfoldable pub node_candidates : Text → Wfd → Fallible (List ResolvedCandidate)
    unfolding with_grants
    node_candidates node_key wfd = elim (lookup node_key wfd.nodes) [
      | none ↦ err (invalid_wfd (codes "wft hedefi bilinmeyen node '" ++ (node_key ++ codes "'")))
      | some n ↦ resolve_candidates (NodeDef.c_a n) >>= λ out.
          with_grants (open_grants wfd wfah node_key) (map (stamp ca) out)
    ]

    pub fork_candidates : Wfd → List Text → Fallible (List ResolvedCandidate)
    unfolding resolve_candidates
    fork_candidates wfd [] = ok []
    fork_candidates wfd (b ∷ bs) =
        elim (lookup b (Wfd.nodes wfd)) [
          | none ↦ err (invalid_wfd (codes "parallel branch bilinmeyen node '" ++ (b ++ codes "'")))
          | some n ↦ resolve_candidates (NodeDef.c_a n)
        ]
        >>= λ out. fork_candidates wfd bs >>= λ rest. ok (out ++ rest)

    abbrev at_site : Option CallSite → Option Text → Wfd → Fallible (List ResolvedCandidate)
    at_site (some (CallSite.node key)) rests wfd = node_candidates key wfd
    at_site (some (CallSite.terminal id)) rests wfd = ok []
    at_site none (some key) wfd = node_candidates key wfd
    at_site none none wfd = ok []

    abbrev forked : CommitOutcome → Option (List Text)
    forked (fork_to bs join rule) = some bs
    forked _ = none

    unfoldable pub candidates_at :
        CommitOutcome → Option CallSite → Wfd → Fallible (List ResolvedCandidate)
    unfolding node_candidates fork_candidates
    candidates_at outcome landed wfd = elim (forked outcome) [
      | some bs ↦ fork_candidates wfd bs
      | none ↦ at_site landed (Resolution.node (resolution outcome)) wfd
    ]
