-- ===== src/Effects/Apply.antt =====
-- crates/wfe-core/src/v22/effects.rs, `apply_effects`: which writes a transition's context holds.
use agnoflow_engine.Prelude.{
  ◌≡◌, refl, sym, subst, ◌∙◌, Bool, true, false, List, [], ◌∷◌, ◌++◌, Memᴰ, Memᴰ-cases, inl, inr,
  if◌then◌else◌, Text, Dict, split, some, ok, ◌>>=◌, >>=-eq-ok,
}
use agnoflow_engine.Types.Json.{Json, object, Fields}
use agnoflow_engine.Types.Errors.{Fallible}
use agnoflow_engine.Types.Actor.{Instant}
use agnoflow_engine.Types.Wfd.{SetWhenEntry, WfesEffects}
use agnoflow_engine.Types.Host.{Host}
use agnoflow_engine.Eval.{evaluate_bool}
use agnoflow_engine.Effects.{
  EffectEnv, get_path, set_path, resolve_value, set_all, effect_eval_env, set_when_all, root_of,
  apply_effects,
}
use agnoflow_engine.Effects.Paths.{Apart, get_path-set_path, get_path-set_path_other}

-- no entry writes a path that meets `path`
abbrev pub Leaves : Dict Json → Text → Type 0
Leaves entries path =
    (kv : Text × Json) → Memᴰ kv entries → Apart (split b'.' kv.0) (split b'.' path)

-- no entry writes a path that meets the path of an earlier one
abbrev pub Disjoint : Dict Json → Type 0
Disjoint [] = Unit
Disjoint ((path, raw) ∷ entries) = Leaves entries path × Disjoint entries

-- no guarded entry writes a path that meets `path`
abbrev pub WhenLeaves : List SetWhenEntry → Text → Type 0
WhenLeaves entries path = (entry : SetWhenEntry) → Memᴰ entry entries → Leaves entry.set path

module _ (host : Host) (context : Json) (env : EffectEnv) where
  set_all_other :
      (entries : Dict Json) (path : Text)
      → Leaves entries path
      → (root : Fields) {out : Fields} → set_all host entries context env root ≡ ok out
      → get_path (object out) path ≡ get_path (object root) path
  unfolding set_all
  set_all_other [] path leaves root {out} h = let q : out ≡ root = cc in rw q refl
  set_all_other ((p, raw) ∷ entries) path leaves root h =
      let (v, e, h1) =
        >>=-eq-ok (resolve_value host raw context env)
          (λ v. set_all host entries context env (set_path root p v)) h in
      set_all_other entries path (λ kv m. leaves kv (Memᴰ.tail m)) (set_path root p v) h1
      ∙ get_path-set_path_other root p path v (leaves (p, raw) (Memᴰ.head refl))

  -- the value that an entry stands for, in the context that came in
  abbrev pub Written : Json → Text → Fields → Type 0
  Written raw path out =
      (v : Json) × (resolve_value host raw context env ≡ ok v)
      × (get_path (object out) path ≡ some v)

  set_all-Written :
      (entries : Dict Json)
      → Disjoint entries
      → (root : Fields) {out : Fields} → set_all host entries context env root ≡ ok out
      → {path : Text} {raw : Json} → Memᴰ (path, raw) entries
      → Written raw path out
  unfolding set_all
  set_all-Written [] disjoint root h m = elim m [ ]
  set_all-Written ((p, r) ∷ entries) (leaves, disjoint) root {out} h {path} {raw} m =
      let (v, e, h1) =
        >>=-eq-ok (resolve_value host r context env)
          (λ v. set_all host entries context env (set_path root p v)) h in
      elim (Memᴰ-cases m) [
        | inl q ↦
            subst (λ (kv : Text × Json). Written kv.1 kv.0 out) (sym q)
              (
                v,
                e,
                set_all_other entries p leaves (set_path root p v) h1 ∙ get_path-set_path root p v,
              )
        | inr n ↦ set_all-Written entries disjoint (set_path root p v) h1 n
      ]

  abbrev when_step : SetWhenEntry → Fields → Bool → Fallible Fields
  when_step entry root holds = if holds then set_all host entry.set context env root else ok root

  -- one round of the loop over `set_when`
  when_round :
      (entry : SetWhenEntry) (entries : List SetWhenEntry) (now : Instant) (root : Fields)
      {out : Fields}
      → set_when_all host (entry ∷ entries) context env now root ≡ ok out
      → (holds : Bool) × (mid : Fields) × (evaluate_bool host entry.when
            (effect_eval_env host context env)
            now
          ≡ ok holds)
        × (when_step entry root holds ≡ ok mid)
        × (set_when_all host entries context env now mid ≡ ok out)
  unfolding set_when_all
  when_round entry entries now root h =
      let (holds, e1, h1) =
        >>=-eq-ok (evaluate_bool host entry.when (effect_eval_env host context env) now)
          (λ holds. when_step entry root holds >>= set_when_all host entries context env now) h in
      let (mid, e2, h2) =
        >>=-eq-ok (when_step entry root holds) (set_when_all host entries context env now) h1 in
      (holds, mid, e1, e2, h2)

  when_step_other :
      (entry : SetWhenEntry) (holds : Bool) (root : Fields) {mid : Fields} (path : Text)
      → Leaves entry.set path
      → when_step entry root holds ≡ ok mid
      → get_path (object mid) path ≡ get_path (object root) path
  when_step_other entry true root path leaves h = set_all_other entry.set path leaves root h
  when_step_other entry false root {mid} path leaves h = let q : mid ≡ root = cc in rw q refl

  set_when_all_other :
      (entries : List SetWhenEntry) (now : Instant) (path : Text)
      → WhenLeaves entries path
      → (root : Fields) {out : Fields} → set_when_all host entries context env now root ≡ ok out
      → get_path (object out) path ≡ get_path (object root) path
  unfolding set_when_all
  set_when_all_other [] now path leaves root {out} h = let q : out ≡ root = cc in rw q refl
  set_when_all_other (entry ∷ entries) now path leaves root h =
      let (holds, mid, e, h1, h2) = when_round entry entries now root h in
      set_when_all_other entries now path (λ e m. leaves e (Memᴰ.tail m)) mid h2
      ∙ when_step_other entry holds root path (leaves entry (Memᴰ.head refl)) h1

  set_when_all-snoc :
      (front : List SetWhenEntry) (entry : SetWhenEntry) (now : Instant) (root : Fields)
      {out : Fields}
      → set_when_all host (front ++ entry ∷ []) context env now root ≡ ok out
      → evaluate_bool host entry.when (effect_eval_env host context env) now ≡ ok true
      → (before : Fields) × (set_all host entry.set context env before ≡ ok out)
  unfolding set_when_all
  set_when_all-snoc [] entry now root {out} h holds =
      let (b, mid, e, e1, e2) = when_round entry [] now root h in
      let q : mid ≡ out = cc in let t : b ≡ true = cc in (root, rw t at (rw q at e1))
  set_when_all-snoc (first ∷ front) entry now root h holds =
      let (b, mid, e, e1, e2) = when_round first (front ++ entry ∷ []) now root h in
      set_when_all-snoc front entry now mid e2 holds

  -- the two loops of `apply_effects`
  apply_steps :
      (effects : WfesEffects) (now : Instant) {out : Json}
      → apply_effects host context effects env now ≡ ok out
      → (mid root : Fields) × (set_all host effects.set context env (root_of context) ≡ ok mid)
        × (set_when_all host effects.set_when context env now mid ≡ ok root)
        × (out ≡ object root)
  unfolding apply_effects
  apply_steps effects now {out} h =
      let (root, e, h1) =
        >>=-eq-ok
          (set_all host effects.set context env (root_of context)
            >>= set_when_all host effects.set_when context env now)
          (λ root. ok (object root)) h in
      let (mid, e1, h2) =
        >>=-eq-ok (set_all host effects.set context env (root_of context))
          (set_when_all host effects.set_when context env now) e in
      let q : out ≡ object root = cc in (mid, root, e1, h2, q)

  -- Each entry of `set` is found in the new context, with the value that it stands for in the context
  -- before the transition, whatever the other entries write; if no two entries of `set` meet, and no
  -- guarded entry meets this one.
  pub apply_effects_set :
      (effects : WfesEffects) (now : Instant) {out : Json}
      → Disjoint effects.set
      → apply_effects host context effects env now ≡ ok out
      → (path : Text) (raw : Json) → Memᴰ (path, raw) effects.set
      → WhenLeaves effects.set_when path
      → (v : Json) × (resolve_value host raw context env ≡ ok v) × (get_path out path ≡ some v)
  unfolding apply_effects
  apply_effects_set effects now {out} disjoint h path raw m leaves =
      let (mid, root, e, e1, q) = apply_steps effects now h in
      let (v, r, g) = set_all-Written effects.set disjoint (root_of context) e m in
      (v, r, rw q (set_when_all_other effects.set_when now path leaves mid e1 ∙ g))

  -- A path that no entry of the effects meets reads what it read before.
  pub apply_effects_other :
      (effects : WfesEffects) (now : Instant) {out : Json}
      → apply_effects host context effects env now ≡ ok out
      → (path : Text) → Leaves effects.set path
      → WhenLeaves effects.set_when path
      → get_path out path ≡ get_path (object (root_of context)) path
  unfolding apply_effects
  apply_effects_other effects now {out} h path leaves when_leaves =
      let (mid, root, e, e1, q) = apply_steps effects now h in
      rw q (
        set_when_all_other effects.set_when now path when_leaves mid e1
        ∙ set_all_other effects.set path leaves (root_of context) e)

  -- Of the guarded entries the last one that holds has the last word, if it stands last and no two
  -- of its own writes meet: each of them is found in the new context, with the value that it stands
  -- for in the context before the transition.
  pub apply_effects_last_wins :
      (effects : WfesEffects) (now : Instant) {out : Json} (front : List SetWhenEntry)
      (entry : SetWhenEntry)
      → effects.set_when ≡ front ++ entry ∷ []
      → Disjoint entry.set
      → evaluate_bool host entry.when (effect_eval_env host context env) now ≡ ok true
      → apply_effects host context effects env now ≡ ok out
      → (path : Text) (raw : Json) → Memᴰ (path, raw) entry.set
      → (v : Json) × (resolve_value host raw context env ≡ ok v) × (get_path out path ≡ some v)
  unfolding apply_effects
  apply_effects_last_wins effects now {out} front entry parts disjoint holds h path raw m =
      let (mid, root, e, e1, q) = apply_steps effects now h in
      let (before, last) = set_when_all-snoc front entry now mid (rw parts at e1) holds in
      let (v, r, g) = set_all-Written entry.set disjoint before last m in (v, r, rw q g)
