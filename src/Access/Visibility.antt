-- ===== src/Access/Visibility.antt =====
-- crates/wfe-core/src/v22/visibility.rs: who sees a field of the context, and who sees an instance.
-- The parse of an `x-visibility` block by serde is a parameter; `now` stands for `Utc::now()`.
pub mod Criteria
pub mod Filtered
pub mod Instance
pub mod Nested
use agnoflow_engine.Prelude.{
  Bool, true, false, ◌&&◌, not, Option, none, some, List, [], ◌∷◌, ◌++◌, if◌then◌else◌, ◌==◌, Text,
  codes, text_eq, any, filter, find, map, is_some, and_then, opt_eq, unwrap_or, lookup, Result, ok,
  err, ◌>>=◌,
}
use agnoflow_engine.Types.Json.{
  Json, null, bool, number, string, array, object, Fields, end, field, get,
}
use agnoflow_engine.Types.Errors.{Fallible, invalid_wfd}
use agnoflow_engine.Types.Actor.{Uuid, Instant, Actor, OrgUnit}
use agnoflow_engine.Types.Wfd.{COrgu, CuItem, CandidateActor, WfAdminRule, NodeDef, Terminal, Wfd}
use agnoflow_engine.Types.Wfes.{Wfes, BranchState, is_active, branch_is_active}
use agnoflow_engine.Types.Host.{Host}
use agnoflow_engine.Ledger.Valid.{for_version}
use agnoflow_engine.Access.Ports.{OrgPort}
use agnoflow_engine.Access.Resolver.{resolve_c_orgu}
use agnoflow_engine.Access.Matcher.{MatchEnv, user_admits, authorize_or_delegated_anchored}
use agnoflow_engine.Access.Grants.{match_env, matches_grant_rules}

pub record XVisibility : Type 0 where
  pub c_orgu : Option COrgu
  pub c_r : Option (List Text)
  pub c_u : Option (List CuItem)
  pub c_a : Option CandidateActor

-- `if first.await? { return Ok(true); }` and what follows
infixr 4 ◌or_else◌
abbrev pub ◌or_else◌ : Fallible Bool → Fallible Bool → Fallible Bool
m or_else n = m >>= λ b. if b then ok true else n

-- the role alone: neither the unit nor the store is asked
pub role_sees : Option (List Text) → Actor → Bool
role_sees none actor = false
role_sees (some c_r) actor = any (λ r. text_eq r actor.role) c_r

pub owns : Wfes → Actor → Bool
owns wfes viewer = opt_eq (λ a b. a == b) wfes.assigned_to (some viewer.user_id)

pub owns_branch : Wfes → Actor → Bool
owns_branch wfes viewer =
    any
      (λ b.
        branch_is_active (BranchState.status b)
        && opt_eq (λ a c. a == c) (BranchState.claimed_by b) (some viewer.user_id))
      wfes.branches

pub active_nodes : Wfes → List Text
active_nodes wfes =
    if is_some wfes.join_target
    then map BranchState.branch_node
        (filter (λ b. branch_is_active (BranchState.status b)) wfes.branches)
    else elim wfes.current_node [ none ↦ [] | some node ↦ node ∷ [] ]

unfoldable pub field_schema : Json → Text → Option Json
field_schema context_schema key = and_then (get (codes "properties") context_schema) (get key)

-- a nested object with a schema of its own is filtered, another value kept
abbrev pub nested_value : Json → Json → Fallible Json → Fallible Json
nested_value own value nested = if is_some (get (codes "properties") own) then nested else ok value

module _ (host : Host) (org : OrgPort) (now : Instant) where
  pub unit_sees : Option COrgu → Actor → Option Uuid → MatchEnv → Fallible Bool
  unit_sees none actor anchor env = ok false
  unit_sees (some c_orgu) actor anchor env =
      resolve_c_orgu host org c_orgu (unwrap_or anchor actor.orgu_id) env.context env.ledger
        env.orgtnt_id
      >>= λ resolved. ok (any (λ (u : OrgUnit). u.orgu_id == actor.orgu_id) resolved)

  pub candidate_sees : Option CandidateActor → Actor → Option Uuid → MatchEnv → Fallible Bool
  candidate_sees none actor anchor env = ok false
  candidate_sees (some c_a) actor anchor env =
      authorize_or_delegated_anchored host org c_a actor anchor env now

  unfoldable pub visible : XVisibility → Actor → Option Uuid → MatchEnv → Fallible Bool
  unfolding unit_sees role_sees candidate_sees
  visible vis actor anchor env =
      unit_sees vis.c_orgu actor anchor env
      or_else (ok (role_sees vis.c_r actor)
          or_else (user_admits host org vis.c_u actor env.context
              or_else candidate_sees vis.c_a actor anchor env))

  -- the loop over the grants of the active nodes
  pub nodes_show : Wfd → Wfes → Actor → List Text → Fallible Bool
  nodes_show wfd wfes viewer [] = ok false
  nodes_show wfd wfes viewer (node_key ∷ keys) =
      let rest = nodes_show wfd wfes viewer keys in
      elim (lookup node_key wfd.nodes) [
        | none ↦ rest
        | some node ↦
            authorize_or_delegated_anchored host org (NodeDef.c_a node) viewer wfes.origin_orgu_id
              (match_env wfes) now
            or_else (matches_grant_rules host org now (NodeDef.listable node) viewer wfes
                  (for_version wfd)
                or_else rest)
      ]

  -- the grants of the terminal where the instance has ended
  pub terminal_shows : Wfd → Wfes → Actor → Fallible Bool
  terminal_shows wfd wfes viewer =
      elim (and_then wfes.end_terminal λ id. find (λ t. text_eq (Terminal.id t) id) wfd.terminals) [
        | none ↦ ok false
        | some terminal ↦
            matches_grant_rules host org now (Terminal.listable terminal) viewer wfes
              (for_version wfd)
      ]

  unfoldable pub can_view : Wfd → Wfes → Actor → Fallible Bool
  unfolding nodes_show terminal_shows owns owns_branch active_nodes
  can_view wfd wfes viewer =
      matches_grant_rules host org now wfd.listable viewer wfes (for_version wfd)
      or_else (matches_grant_rules host org now (map WfAdminRule.grant wfd.wf_admin) viewer wfes
            (for_version wfd)
          or_else (terminal_shows wfd wfes viewer
              or_else (if not (is_active wfes.status)
                  then ok false
                  else ok (owns wfes viewer)
                    or_else (ok (owns_branch wfes viewer)
                        or_else nodes_show wfd wfes viewer (active_nodes wfes)))))

module _ (host : Host) (org : OrgPort) (now : Instant)
    (parse_visibility : Json → Result Text XVisibility) where
  -- may the actor see a field with this schema?
  unfoldable pub field_visible : Json → Actor → Option Uuid → MatchEnv → Fallible Bool
  field_visible schema actor anchor env = elim (get (codes "x-visibility") schema) [
    | none ↦ ok true
    | some block ↦ elim (parse_visibility block) [
      | err e ↦ err (invalid_wfd (codes "x-visibility parse: " ++ e))
      | ok vis ↦ visible host org now vis actor anchor env
    ]
  ]

  -- one round of the loop over the fields: the field's schema, the field, its value filtered, and
  -- what the rounds after it give
  pub field_round :
      Option Json
      → Text
      → Json
      → (Json → Fallible Json)
      → Fallible Fields
      → Actor
      → Option Uuid
      → MatchEnv
      → Fallible Fields
  unfolding field_visible
  field_round none key value nested rest actor anchor env = rest >>= λ out. ok (field key value out)
  field_round (some own) key value nested rest actor anchor env =
      field_visible own actor anchor env >>= λ shown.
      if not shown
      then rest
      else nested_value own value (nested own) >>= λ kept. rest >>= λ out. ok (field key kept out)

  unfoldable mutual
    unfolding field_round

    pub filter_dynctx : Json → Json → Actor → Option Uuid → MatchEnv → Fallible Json
    filter_dynctx schema (object entries) actor anchor env =
        filter_fields schema entries actor anchor env >>= λ out. ok (object out)
    filter_dynctx schema null actor anchor env = ok null
    filter_dynctx schema (bool b) actor anchor env = ok (bool b)
    filter_dynctx schema (number n) actor anchor env = ok (number n)
    filter_dynctx schema (string s) actor anchor env = ok (string s)
    filter_dynctx schema (array items) actor anchor env = ok (array items)

    pub filter_fields : Json → Fields → Actor → Option Uuid → MatchEnv → Fallible Fields
    filter_fields schema end actor anchor env = ok end
    filter_fields schema (field key value entries) actor anchor env =
        field_round (field_schema schema key) key value
          (λ own. filter_dynctx own value actor anchor env)
          (filter_fields schema entries actor anchor env) actor anchor env
