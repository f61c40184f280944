-- ===== src/Env/Secrets.antt =====
-- crates/wfe-core/src/v22/env.rs: a public environment holds what is not secret, and only that.
use agnoflow_engine.Prelude.{
  ◌≡◌, refl, false, Option, none, some, [], ◌∷◌, inl, inr, arith, if◌then◌else◌, Bool-cases, Text,
  text_eq, text_eq_iff, text_eq_sound, lookup, All, and_then,
}
use agnoflow_engine.Env.{EnvValue, EnvSet, public_env}

-- The keys of a `BTreeMap` differ from one another.
abbrev pub DistinctKeys : EnvSet → Type 0
DistinctKeys [] = Unit
DistinctKeys ((k, v) ∷ vars) =
    All (λ (kv : Text × EnvValue). text_eq k kv.0 ≡ false) vars × DistinctKeys vars

abbrev pub visible_value : EnvValue → Option EnvValue
visible_value v = if v.is_secret then none else some v

lookup-absent :
    (k : Text) (vars : EnvSet)
    → All (λ (kv : Text × EnvValue). text_eq k kv.0 ≡ false) vars
    → lookup k (public_env vars).vars ≡ none
unfolding lookup public_env
lookup-absent k [] h = refl
lookup-absent k ((j, v) ∷ vars) h =
    ground (arith, text_eq_iff j k, text_eq_iff k j, lookup-absent k vars h.1)

-- In the public part of an environment whose keys are distinct, a key has the value that it has in
-- the whole, if that is not secret; a secret key is not there.
pub lookup-public_env :
    (vars : EnvSet) (k : Text)
    → DistinctKeys vars
    → lookup k (public_env vars).vars ≡ and_then (lookup k vars) visible_value
unfolding lookup public_env
lookup-public_env [] k d = refl
lookup-public_env ((j, v) ∷ vars) k d = elim (Bool-cases (text_eq j k)) [
  | inl t ↦
      let e : j ≡ k = text_eq_sound j k t in
      let gone = lookup-absent j vars d.0 in ground (arith, lookup-public_env vars k d.1)
  | inr f ↦ ground (arith, lookup-public_env vars k d.1)
]
