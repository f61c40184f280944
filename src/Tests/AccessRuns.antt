-- ===== src/Tests/AccessRuns.antt =====
-- Runs of the matcher (crates/wfe-core/src/v22/matcher.rs).
use agnoflow_engine.Prelude.{◌≡◌, ◌⊎◌, refl, true, none, some, [], ◌∷◌, Memᴰ, inl, codes, ok}
use agnoflow_engine.Access.Matcher.{
  authorize_anchored, authorize_with_delegation_anchored, delegated,
}
use agnoflow_engine.Access.Matcher.Complete.{authorize_anchored_complete}
use agnoflow_engine.Access.Matcher.Rule.{UnitFits, RoleFits, UserFits, authorize_anchored_sound}
use agnoflow_engine.Access.Matcher.Delegated.{Justified, authorize_with_delegation_anchored_sound}
use agnoflow_engine.Access.Resolver.{resolve_c_orgu}
use agnoflow_engine.Tests.Data.{host, org, alice, bob, unit_one, clerks, env}

alice_is_in : authorize_anchored host org clerks alice none env ≡ ok true
unfolding authorize_anchored resolve_c_orgu
alice_is_in = refl

bob_stands_in :
    authorize_with_delegation_anchored host org clerks bob (some 1) env 0
    ≡ ok (delegated 77 10 1 (codes "clerk"))
unfolding authorize_with_delegation_anchored resolve_c_orgu
bob_stands_in = refl

authorize_anchored_sound_example :
    UnitFits host org clerks.c_orgu alice 1 env
    × (RoleFits host org clerks alice ⊎ UserFits host org clerks alice env.context)
authorize_anchored_sound_example =
    authorize_anchored_sound host org clerks alice none env alice_is_in

alice_fits : UnitFits host org clerks.c_orgu alice 1 env
unfolding resolve_c_orgu
alice_fits = (unit_one ∷ [], refl, unit_one, Memᴰ.head refl, refl)

alice_has_role : RoleFits host org clerks alice
alice_has_role = record {
  roles = codes "clerk" ∷ [];
  listed = refl;
  anchored = refl;
  member = Memᴰ.head refl;
  assigned = refl;
}

authorize_anchored_complete_example : authorize_anchored host org clerks alice none env ≡ ok true
authorize_anchored_complete_example =
    authorize_anchored_complete host org clerks alice none env true (some (codes "alice")) refl refl
      alice_fits (inl alice_has_role)

authorize_with_delegation_anchored_sound_example :
    Justified host org clerks bob (some 1) env 0 (delegated 77 10 1 (codes "clerk"))
authorize_with_delegation_anchored_sound_example =
    authorize_with_delegation_anchored_sound host org clerks bob (some 1) env 0
      (delegated 77 10 1 (codes "clerk")) bob_stands_in
