-- ===== src/Access/Visibility/Criteria.antt =====
-- crates/wfe-core/src/v22/visibility.rs: the criteria of `visible`, which are an "or".
use agnoflow_engine.Prelude.{
  ◌≡◌, ◌⊎◌, refl, Bool, true, false, Option, none, some, List, Memᴰ, inl, inr, any-mem, text_eq,
  text_eq_sound, Text, unwrap_or, ok, err,
}
use agnoflow_engine.Types.Errors.{Fallible}
use agnoflow_engine.Types.Actor.{Uuid, Instant, Actor}
use agnoflow_engine.Types.Wfd.{COrgu, CuItem, CandidateActor}
use agnoflow_engine.Types.Host.{Host}
use agnoflow_engine.Access.Ports.{OrgPort}
use agnoflow_engine.Access.Matcher.{
  MatchEnv, wanted, user_admits, unit_admits, authorize_or_delegated_anchored,
}
use agnoflow_engine.Access.Matcher.Rule.{UnitFits, unit_admits_sound, user_admits_sound}
use agnoflow_engine.Access.Visibility.{
  XVisibility, ◌or_else◌, unit_sees, role_sees, candidate_sees, visible,
}

pub or_else_true : (m n : Fallible Bool) → (m or_else n) ≡ ok true → (m ≡ ok true) ⊎ (n ≡ ok true)
or_else_true (ok true) n h = inl refl
or_else_true (ok false) n h = inr h
or_else_true (err e) n h = absurd (cc)

pub ok_true : {b : Bool} → Path (Fallible Bool) (ok b) (ok true) → b ≡ true
ok_true h = cc

module _ (host : Host) (org : OrgPort) (now : Instant) (vis : XVisibility) (actor : Actor)
    (anchor : Option Uuid) (env : MatchEnv) where
  -- The unit is one that the block resolves to, or the role is listed, or the person is, or the whole
  -- candidate rule admits the actor.
  pub data SeenBy : Type 0 where
    unit :
        (c : COrgu)
        → vis.c_orgu ≡ some c
        → UnitFits host org (some c) actor (unwrap_or anchor actor.orgu_id) env
        → SeenBy
    role : (roles : List Text) → vis.c_r ≡ some roles → Memᴰ actor.role roles → SeenBy
    person :
        (items : List CuItem)
        → vis.c_u ≡ some items
        → (name : Text) → Memᴰ name (wanted env.context items)
        → (name ≡ host.uuid_text actor.user_id) ⊎ (org.user_ident actor.user_id ≡ ok (some name))
        → SeenBy
    candidate :
        (rule : CandidateActor)
        → vis.c_a ≡ some rule
        → authorize_or_delegated_anchored host org rule actor anchor env now ≡ ok true
        → SeenBy

  unit_sees_sound :
      (o : Option COrgu)
      → vis.c_orgu ≡ o
      → unit_sees host org now o actor anchor env ≡ ok true
      → SeenBy
  unfolding unit_sees unit_admits
  unit_sees_sound none e h = absurd (cc)
  unit_sees_sound (some c) e h =
      unit c e (unit_admits_sound host org (some c) actor (unwrap_or anchor actor.orgu_id) env h)

  role_sees_sound : (o : Option (List Text)) → vis.c_r ≡ o → role_sees o actor ≡ true → SeenBy
  unfolding role_sees
  role_sees_sound none e h = absurd (cc)
  role_sees_sound (some roles) e h =
      let (r, m, q) = any-mem (λ r. text_eq r actor.role) roles h in
      role roles e (rw (← text_eq_sound r actor.role q) m)

  user_sees_sound : user_admits host org vis.c_u actor env.context ≡ ok true → SeenBy
  user_sees_sound h =
      let (items, e, name, m, q) = user_admits_sound host org vis.c_u actor env.context h in
      person items e name m q

  candidate_sees_sound :
      (o : Option CandidateActor)
      → vis.c_a ≡ o
      → candidate_sees host org now o actor anchor env ≡ ok true
      → SeenBy
  unfolding candidate_sees
  candidate_sees_sound none e h = absurd (cc)
  candidate_sees_sound (some rule) e h = candidate rule e h

  abbrev person_part : Fallible Bool
  person_part =
      user_admits host org vis.c_u actor env.context
      or_else candidate_sees host org now vis.c_a actor anchor env

  -- A field is shown only by one of the criteria that its block lists.
  pub visible_sound : visible host org now vis actor anchor env ≡ ok true → SeenBy
  unfolding visible
  visible_sound h =
      elim (or_else_true (unit_sees host org now vis.c_orgu actor anchor env)
        (ok (role_sees vis.c_r actor) or_else person_part) h) [
          | inl u ↦ unit_sees_sound vis.c_orgu refl u
          | inr h1 ↦ elim (or_else_true (ok (role_sees vis.c_r actor)) person_part h1) [
            | inl r ↦ role_sees_sound vis.c_r refl (ok_true r)
            | inr h2 ↦
                elim (or_else_true (user_admits host org vis.c_u actor env.context)
                  (candidate_sees host org now vis.c_a actor anchor env) h2) [
                    | inl u ↦ user_sees_sound u
                    | inr c ↦ candidate_sees_sound vis.c_a refl c
                  ]
          ]
        ]
