-- ===== src/Access/Visibility/Filtered.antt =====
-- crates/wfe-core/src/v22/visibility.rs, `filter_dynctx`: what the response shows of the context.
use agnoflow_engine.Prelude.{
  ◌≡◌, ◌⊎◌, refl, Bool, true, false, not, Option, none, some, inl, inr, if◌then◌else◌, Bool-cases,
  Text, codes, text_eq, text_eq_sound, Result, ok, ◌>>=◌, >>=-eq-ok,
}
use agnoflow_engine.Types.Json.{Json, Fields, end, field, get_field, get}
use agnoflow_engine.Types.Errors.{Fallible}
use agnoflow_engine.Types.Actor.{Uuid, Instant, Actor}
use agnoflow_engine.Types.Host.{Host}
use agnoflow_engine.Access.Ports.{OrgPort}
use agnoflow_engine.Access.Matcher.{MatchEnv}
use agnoflow_engine.Access.Visibility.{
  XVisibility, field_visible, field_schema, nested_value, field_round, filter_dynctx, filter_fields,
}

module _ (host : Host) (org : OrgPort) (now : Instant)
    (parse_visibility : Json → Result Text XVisibility) (schema : Json) (actor : Actor)
    (anchor : Option Uuid) (env : MatchEnv) where
  abbrev pub Shown : Json → Bool → Type 0
  Shown own b = field_visible host org now parse_visibility own actor anchor env ≡ ok b

  abbrev pub Filtered : Fields → Fields → Type 0
  Filtered fs out = filter_fields host org now parse_visibility schema fs actor anchor env ≡ ok out

  -- the value that a shown field keeps
  abbrev pub Kept : Json → Json → Json → Type 0
  Kept own v kept =
      nested_value own v (filter_dynctx host org now parse_visibility own v actor anchor env)
      ≡ ok kept

  -- how one field of the context comes out, by what its schema says
  abbrev pub Hides : Text → Fields → Fields → Type 0
  Hides j rest out =
      (own : Json) × (field_schema schema j ≡ some own) × Shown own false × (out ≡ rest)

  abbrev pub Shows : Text → Json → Fields → Fields → Type 0
  Shows j v rest out =
      (kept : Json) × (out ≡ field j kept rest)
      × (((field_schema schema j ≡ none) × (kept ≡ v))
          ⊎ ((own : Json) × (field_schema schema j ≡ some own) × Shown own true × Kept own v kept))

  abbrev pub Round : Text → Json → Fields → Fields → Type 0
  Round j v fs out = (rest : Fields) × Filtered fs rest × (Hides j rest out ⊎ Shows j v rest out)

  abbrev keep : Text → Fallible Fields → Json → Fallible Fields
  keep j rest kept = rest >>= λ out. ok (field j kept out)

  abbrev shown_step : Json → Text → Json → Fallible Fields → Bool → Fallible Fields
  shown_step own j v rest shown =
      if not shown
      then rest
      else nested_value own v (filter_dynctx host org now parse_visibility own v actor anchor env)
        >>= keep j rest

  unnamed_field :
      (j : Text) (v : Json) (fs out : Fields)
      → field_schema schema j ≡ none
      → keep j (filter_fields host org now parse_visibility schema fs actor anchor env) v ≡ ok out
      → Round j v fs out
  unnamed_field j v fs out e h =
      let (rest, e1, h1) =
        >>=-eq-ok (filter_fields host org now parse_visibility schema fs actor anchor env)
          (λ out. ok (field j v out)) h in
      let q : out ≡ field j v rest = cc in (rest, e1, inr (v, q, inl (e, refl)))

  named_field :
      (j : Text) (v : Json) (fs out : Fields) (own : Json)
      → field_schema schema j ≡ some own
      → (field_visible host org now parse_visibility own actor anchor env
          >>= shown_step own j v
              (filter_fields host org now parse_visibility schema fs actor anchor env))
        ≡ ok out
      → Round j v fs out
  named_field j v fs out own e h =
      let (b, e1, h1) =
        >>=-eq-ok (field_visible host org now parse_visibility own actor anchor env)
          (shown_step own j v
            (filter_fields host org now parse_visibility schema fs actor anchor env))
          h in
      elim (Bool-cases b) [
        | inl t ↦
            let (kept, e2, h2) =
              >>=-eq-ok
                (nested_value own v
                  (filter_dynctx host org now parse_visibility own v actor anchor env))
                (keep j (filter_fields host org now parse_visibility schema fs actor anchor env))
                (rw t at h1) in
            let (rest, e3, h3) =
              >>=-eq-ok (filter_fields host org now parse_visibility schema fs actor anchor env)
                (λ out. ok (field j kept out)) h2 in
            let q : out ≡ field j kept rest = cc in
            (rest, e3, inr (kept, q, inr (own, e, rw t at e1, e2)))
        | inr f ↦ (out, rw f at h1, inl (own, e, rw f at e1, refl))
      ]

  field_by_schema :
      (o : Option Json) (j : Text) (v : Json) (fs out : Fields)
      → field_schema schema j ≡ o
      → field_round host org now parse_visibility o j v
          (λ own. filter_dynctx host org now parse_visibility own v actor anchor env)
          (filter_fields host org now parse_visibility schema fs actor anchor env)
          actor
          anchor
          env
        ≡ ok out
      → Round j v fs out
  unfolding field_round
  field_by_schema none j v fs out e h = unnamed_field j v fs out e h
  field_by_schema (some own) j v fs out e h = named_field j v fs out own e h

  pub round :
      (j : Text) (v : Json) (fs out : Fields) → Filtered (field j v fs) out → Round j v fs out
  unfolding filter_fields
  round j v fs out h = field_by_schema (field_schema schema j) j v fs out refl h

  -- how a field that is shown came to its value
  abbrev Way : Text → Json → Json → Type 0
  Way j v kept =
      ((field_schema schema j ≡ none) × (kept ≡ v))
      ⊎ ((own : Json) × (field_schema schema j ≡ some own) × Shown own true × Kept own v kept)

  seen_apart :
      (key : Text) (own : Json)
      → field_schema schema key ≡ some own
      → Shown own false
      → (j : Text) (v kept : Json) → Way j v kept
      → text_eq j key ≡ false
  seen_apart key own e hidden j v kept way = elim (Bool-cases (text_eq j key)) [
    | inr f ↦ f
    | inl t ↦ elim way [
      | inl (e', q) ↦ absurd (let e2 = rw (text_eq_sound j key t) at e' in cc)
      | inr (own', e', shown, k) ↦
          let e2 : field_schema schema key ≡ some own' = rw (text_eq_sound j key t) at e' in
          let same : own' ≡ own = cc in absurd (let shown' = rw same at shown in cc)
    ]
  ]

  -- what the schema says of a field that keeps its value
  abbrev Plain : Text → Type 0
  Plain key =
      (field_schema schema key ≡ none)
      ⊎ ((own : Json) × (field_schema schema key ≡ some own)
          × Shown own true
          × (get (codes "properties") own ≡ none))

  hidden_other :
      (key : Text)
      → Plain key
      → (j : Text) (own : Json) → field_schema schema j ≡ some own
      → Shown own false
      → text_eq j key ≡ false
  hidden_other key plain j own e hidden = elim (Bool-cases (text_eq j key)) [
    | inr f ↦ f
    | inl t ↦
        let e' : field_schema schema key ≡ some own = rw (text_eq_sound j key t) at e in
        elim plain [
          | inl n ↦ absurd (cc)
          | inr (own', e2, shown, p) ↦
              let same : own' ≡ own = cc in absurd (let shown' = rw same at shown in cc)
        ]
  ]

  shown_same :
      (key : Text) → Plain key → (j : Text) (v kept : Json) → j ≡ key → Way j v kept → kept ≡ v
  shown_same key plain j v kept t (inl (e, q)) = q
  shown_same key (inl n) j v kept t (inr (own, e, shown, k)) = absurd (let e' = rw t at e in cc)
  shown_same key (inr (own', e2, shown', p)) j v kept t (inr (own, e, shown, k)) =
      let e' : field_schema schema key ≡ some own = rw t at e in
      let same : own ≡ own' = cc in
      let k' : nested_value own' v
            (filter_dynctx host org now parse_visibility own' v actor anchor env)
          ≡ ok kept =
        rw same at k in
      let k2 : ok v ≡ ok kept = rw p at k' in cc

  -- A field of an object whose schema does not show it to the actor is not among the fields that the
  -- object keeps, wherever it stands among them.
  pub filter_fields_hides :
      (key : Text) (own : Json)
      → field_schema schema key ≡ some own
      → field_visible host org now parse_visibility own actor anchor env ≡ ok false
      → (fs : Fields) {out : Fields}
      → filter_fields host org now parse_visibility schema fs actor anchor env ≡ ok out
      → get_field key out ≡ none
  unfolding filter_fields get_field
  filter_fields_hides key own e hidden end {out} h = let q : out ≡ end = cc in rw q refl
  filter_fields_hides key own e hidden (field j v fs) {out} h =
      let (rest, e1, step) = round j v fs out h in
      let ih = filter_fields_hides key own e hidden fs e1 in
      elim step [
        | inl (own', e', f, q) ↦ rw q ih
        | inr (kept, q, way) ↦ rw (q, get_field, seen_apart key own e hidden j v kept way, ih)
      ]

  -- A field that the schema does not name, or that it shows and does not nest, keeps its value.
  pub filter_fields_keeps :
      (key : Text)
      → (field_schema schema key ≡ none)
        ⊎ ((own : Json) × (field_schema schema key ≡ some own)
            × (field_visible host org now parse_visibility own actor anchor env ≡ ok true)
            × (get (codes "properties") own ≡ none))
      → (fs : Fields) {out : Fields}
      → filter_fields host org now parse_visibility schema fs actor anchor env ≡ ok out
      → get_field key out ≡ get_field key fs
  unfolding filter_fields get_field
  filter_fields_keeps key plain end {out} h = let q : out ≡ end = cc in rw q refl
  filter_fields_keeps key plain (field j v fs) {out} h =
      let (rest, e1, step) = round j v fs out h in
      let ih = filter_fields_keeps key plain fs e1 in
      elim step [
        | inl (own', e', f, q) ↦ rw (q, hidden_other key plain j own' e' f, ih)
        | inr (kept, q, way) ↦ elim (Bool-cases (text_eq j key)) [
          | inl t ↦ rw (q, get_field, t, shown_same key plain j v kept (text_eq_sound j key t) way)
          | inr f ↦ rw (q, get_field, f, ih)
        ]
      ]
