-- ===== src/Tests/ViewRuns.antt =====
-- Runs of the visibility (crates/wfe-core/src/v22/visibility.rs): a context with a public field and
-- one that only the role `boss` sees.
use agnoflow_engine.Env.{assert_refs_defined}
use agnoflow_engine.Eval.{evaluate_bool}
use agnoflow_engine.Access.Matcher.{user_admits, authorize_or_delegated_anchored}
use agnoflow_engine.Access.Grants.{matches_grant_rules}
use agnoflow_engine.Prelude.{
  strip_prefix, text_eq, ◌≡◌, ◌⊎◌, refl, true, false, none, some, [], ◌∷◌, Text, codes, Result, ok,
}
use agnoflow_engine.Types.Json.{Json, null, bool, object, Fields, get_field, get, obj, fields_of}
use agnoflow_engine.Types.Wfes.{is_active}
use agnoflow_engine.Access.Visibility.{
  XVisibility, visible, can_view, field_schema, field_visible, filter_dynctx,
}
use agnoflow_engine.Access.Visibility.Instance.{Permanent, Current, can_view_sound}
use agnoflow_engine.Access.Visibility.Nested.{Hidden, inside, value_along, filter_dynctx_hides}
use agnoflow_engine.Tests.Data.{host, org, alice, bob, wfd, wfes, env}

abbrev for_role : Text → XVisibility
for_role role = record { c_orgu = none; c_r = some (role ∷ []); c_u = none; c_a = none }

-- each block is for the boss
abbrev parse : Json → Result Text XVisibility
parse block = ok (for_role (codes "boss"))

abbrev salary : Json
salary = obj ((codes "x-visibility", null) ∷ [])

abbrev schema : Json
schema = obj ((codes "properties", obj ((codes "salary", salary) ∷ [])) ∷ [])

abbrev context : Fields
context = fields_of ((codes "salary", bool true) ∷ (codes "city", bool false) ∷ [])

abbrev shown : Fields
shown = fields_of ((codes "city", bool false) ∷ [])

clerk_sees : visible host org 0 (for_role (codes "clerk")) alice none env ≡ ok true
unfolding visible text_eq
clerk_sees = refl

bob_views : can_view host org 0 wfd wfes bob ≡ ok true
unfolding can_view matches_grant_rules authorize_or_delegated_anchored text_eq evaluate_bool
    assert_refs_defined strip_prefix
bob_views = refl

can_view_sound_example :
    Permanent host org 0 wfd wfes bob
    ⊎ ((is_active wfes.status ≡ true) × Current host org 0 wfd wfes bob)
can_view_sound_example = can_view_sound host org 0 wfd wfes bob bob_views

-- a person with a salary, and the schema of both
abbrev with_person : Json
with_person = obj ((codes "properties", obj ((codes "person", schema) ∷ [])) ∷ [])

filtered :
    filter_dynctx host org 0 parse with_person
      (obj ((codes "person", object context) ∷ []))
      alice
      none
      env
    ≡ ok (obj ((codes "person", object shown) ∷ []))
unfolding filter_dynctx field_schema get get_field text_eq visible user_admits
filtered = refl

salary_is_hidden :
    Hidden host org 0 parse alice none env with_person (codes "person" ∷ codes "salary" ∷ [])
unfolding field_schema field_visible get get_field text_eq visible user_admits
salary_is_hidden = inside refl refl (Hidden.here {own = salary} refl refl)

filter_dynctx_hides_example :
    value_along (codes "person" ∷ codes "salary" ∷ []) (obj ((codes "person", object shown) ∷ []))
    ≡ none
filter_dynctx_hides_example =
    filter_dynctx_hides host org 0 parse alice none env with_person
      (codes "person" ∷ codes "salary" ∷ []) (obj ((codes "person", object context) ∷ []))
      salary_is_hidden filtered
