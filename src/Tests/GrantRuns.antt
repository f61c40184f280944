-- ===== src/Tests/GrantRuns.antt =====
-- Runs of the grants (crates/wfe-core/src/v22/grants.rs).
use agnoflow_engine.Env.{assert_refs_defined}
use agnoflow_engine.Eval.{evaluate_bool}
use agnoflow_engine.Access.Matcher.{
  authorize_with_delegation_anchored, authorize_or_delegated_anchored,
}
use agnoflow_engine.Prelude.{
  strip_prefix, text_eq, ◌≡◌, refl, true, some, [], ◌∷◌, codes, ok, lookup,
}
use agnoflow_engine.Types.Wfd.{global_action_text, GlobalAction, NodeDef}
use agnoflow_engine.Ledger.Valid.{for_version}
use agnoflow_engine.Access.Resolver.{resolve_c_orgu}
use agnoflow_engine.Access.Grants.{matches_grant_rules, require_global_action, authorize_node}
use agnoflow_engine.Access.Grants.Node.{MayWork, authorize_node_sound}
use agnoflow_engine.Access.Grants.Admins.{Allows, require_global_action_sound}
use agnoflow_engine.Tests.Data.{host, org, alice, bob, grant_to, admins, wfd, wfes}

bob_is_granted :
    matches_grant_rules host org 0 (grant_to (codes "bob") ∷ []) bob wfes (for_version wfd)
    ≡ ok true
unfolding matches_grant_rules authorize_or_delegated_anchored text_eq evaluate_bool
    assert_refs_defined strip_prefix
bob_is_granted = refl

alice_cancels :
    require_global_action host org 0 (admins ∷ []) alice GlobalAction.cancel wfes (for_version wfd)
    ≡ ok tt
unfolding require_global_action global_action_text authorize_or_delegated_anchored text_eq
    evaluate_bool assert_refs_defined strip_prefix
alice_cancels = refl

require_global_action_sound_example :
    Allows host org 0 alice wfes (for_version wfd) (admins ∷ []) GlobalAction.cancel
require_global_action_sound_example =
    require_global_action_sound host org 0 alice wfes (for_version wfd) (admins ∷ [])
      GlobalAction.cancel alice_cancels

alice_works : authorize_node host org 0 wfd wfes (codes "review") alice ≡ ok true
unfolding authorize_node resolve_c_orgu lookup authorize_with_delegation_anchored
alice_works = refl

authorize_node_sound_example :
    (node : NodeDef) × (lookup (codes "review") wfd.nodes ≡ some node)
    × MayWork host org 0 wfd wfes (codes "review") alice node
authorize_node_sound_example =
    authorize_node_sound host org 0 wfd wfes (codes "review") alice alice_works
