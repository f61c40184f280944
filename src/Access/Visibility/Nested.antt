-- ===== src/Access/Visibility/Nested.antt =====
-- crates/wfe-core/src/v22/visibility.rs, `filter_dynctx`: what the response hides, at any depth.
use agnoflow_engine.Prelude.{
  ◌≡◌, ◌⊎◌, refl, true, false, Option, none, some, List, [], ◌∷◌, inl, inr, Bool-cases,
  Option-cases, is_some, and_then, Text, codes, text_eq, text_eq_sound, Result, ok, >>=-eq-ok,
}
use agnoflow_engine.Types.Json.{
  Json, Fields, null, bool, number, string, array, object, end, field, get_field, get,
}
use agnoflow_engine.Types.Actor.{Uuid, Instant, Actor}
use agnoflow_engine.Types.Host.{Host}
use agnoflow_engine.Access.Ports.{OrgPort}
use agnoflow_engine.Access.Matcher.{MatchEnv}
use agnoflow_engine.Access.Visibility.{
  XVisibility, field_visible, field_schema, filter_dynctx, filter_fields,
}
use agnoflow_engine.Access.Visibility.Filtered.{round, filter_fields_hides}

-- the value at a path of field names
pub value_along : List Text → Json → Option Json
value_along [] value = some value
value_along (key ∷ path) value = and_then (get key value) (value_along path)

module _ (host : Host) (org : OrgPort) (now : Instant)
    (parse_visibility : Json → Result Text XVisibility) (actor : Actor) (anchor : Option Uuid)
    (env : MatchEnv) where
  -- The schema hides what stands at the path: the last name on it is one that the schema there does
  -- not show to the actor, and the schemas on the way have properties of their own.
  pub data Hidden : Json → List Text → Type 0 where
    here :
        {schema own : Json} {key : Text}
        → field_schema schema key ≡ some own
        → field_visible host org now parse_visibility own actor anchor env ≡ ok false
        → Hidden schema (key ∷ [])
    inside :
        {schema own : Json} {key : Text} {path : List Text}
        → field_schema schema key ≡ some own
        → is_some (get (codes "properties") own) ≡ true
        → Hidden own path
        → Hidden schema (key ∷ path)

  -- a field that is kept, and whose schema has properties, is filtered by them
  kept_is_filtered :
      (schema own : Json) (key : Text)
      → field_schema schema key ≡ some own
      → is_some (get (codes "properties") own) ≡ true
      → (fs : Fields) {out : Fields} {kept : Json}
      → filter_fields host org now parse_visibility schema fs actor anchor env ≡ ok out
      → get_field key out ≡ some kept
      → (v : Json) × (filter_dynctx host org now parse_visibility own v actor anchor env ≡ ok kept)
  unfolding filter_fields get_field
  kept_is_filtered schema own key e props end {out} {kept} h g =
      let q : out ≡ end = cc in absurd (let g' = rw q at g in cc)
  kept_is_filtered schema own key e props (field j v fs) {out} {kept} h g =
      let (rest, e1, step) =
        round host org now parse_visibility schema actor anchor env j v fs out h in
      elim step [
        | inl (own', e', f, q) ↦ kept_is_filtered schema own key e props fs e1 (rw q at g)
        | inr (kept', q, way) ↦ elim (Bool-cases (text_eq j key)) [
          | inr f ↦ kept_is_filtered schema own key e props fs e1 (rw (q, get_field, f) at g)
          | inl t ↦
              let same : kept' ≡ kept = let g' = rw (q, get_field, t) at g in cc in
              elim way [
                | inl (e', k) ↦ absurd (let e2 = rw (text_eq_sound j key t) at e' in cc)
                | inr (own', e', shown, k) ↦
                    let e2 : field_schema schema key ≡ some own' =
                      rw (text_eq_sound j key t) at e' in
                    let q2 : own' ≡ own = cc in let k2 = rw (q2, props, same) at k in (v, k2)
              ]
        ]
      ]

  -- a name of the filtered value: it is not there, or a field of a filtered object
  by_fields :
      (schema v : Json) (key : Text) {out : Json}
      → filter_dynctx host org now parse_visibility schema v actor anchor env ≡ ok out
      → (get key out ≡ none)
        ⊎ ((fs : Fields) × (shown : Fields) × (filter_fields host org now parse_visibility schema fs
                actor anchor env
              ≡ ok shown)
            × (get key out ≡ get_field key shown))
  unfolding filter_dynctx get
  by_fields schema (object fs) key {out} h =
      let (shown, e, k) =
        >>=-eq-ok (filter_fields host org now parse_visibility schema fs actor anchor env) _ h in
      let q : object shown ≡ out = cc in inr (fs, shown, e, rw (← q) refl)
  by_fields schema null key {out} h = let q : null ≡ out = cc in inl (rw (← q) refl)
  by_fields schema (bool b) key {out} h = let q : bool b ≡ out = cc in inl (rw (← q) refl)
  by_fields schema (number n) key {out} h = let q : number n ≡ out = cc in inl (rw (← q) refl)
  by_fields schema (string s) key {out} h = let q : string s ≡ out = cc in inl (rw (← q) refl)
  by_fields schema (array xs) key {out} h = let q : array xs ≡ out = cc in inl (rw (← q) refl)

  -- What a schema hides from the actor, at any depth, is not in the filtered context: no value stands
  -- at a path whose last name the schema there does not show, where the schemas of the names before
  -- it have properties.
  pub filter_dynctx_hides :
      (schema : Json) (path : List Text) (context : Json) {out : Json}
      → Hidden schema path
      → filter_dynctx host org now parse_visibility schema context actor anchor env ≡ ok out
      → value_along path out ≡ none
  unfolding value_along
  filter_dynctx_hides schema path context (here {own} {key} e hidden) h =
      elim (by_fields schema context key h) [
        | inl n ↦ rw n refl
        | inr (fs, shown, f, q) ↦
            rw
              (
                q,
                filter_fields_hides host org now parse_visibility schema actor anchor env key own e
                    hidden fs f,
              )
              refl
      ]
  filter_dynctx_hides schema path context (inside {own} {key} {path = below} e props hidden) h =
      elim (by_fields schema context key h) [
        | inl n ↦ rw n refl
        | inr (fs, shown, f, q) ↦ elim (Option-cases (get_field key shown)) [
          | inl n ↦ rw (q, n) refl
          | inr (kept, g) ↦
              let (v, k) = kept_is_filtered schema own key e props fs f g in
              rw (q, g) (filter_dynctx_hides own below v hidden k)
        ]
      ]
