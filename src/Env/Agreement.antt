-- ===== src/Env/Agreement.antt =====
-- crates/wfe-core/src/v22/env.rs: the gate over references and the resolver of texts agree, and
-- their loops have enough rounds.
use agnoflow_engine.Prelude.{
  ℕ, zero, suc, ◌≡◌, refl, ◌∙◌, Bool, true, false, some, List, [], ◌∷◌, ◌++◌, inl, inr, arith,
  Option-cases, Text, length, Result, ok, err, ◌>>=◌, strip_prefix,
}
use agnoflow_engine.Types.Json.{string}
use agnoflow_engine.Types.Errors.{Fallible}
use agnoflow_engine.Types.Host.{Host}
use agnoflow_engine.Env.{
  EnvValue, EnvSet, prefix, split_ref, contains_ref, read_key, references_loop, references, get_env,
  check_keys, assert_refs_defined, resolve_loop, whole_ref, resolve_string, scalar_to_string,
}

abbrev pub is_ok {ℓ} : {E A : Type ℓ} → Result E A → Bool
is_ok (ok a) = true
is_ok (err e) = false

is_ok-map : {A B : Type 0} (m : Fallible A) (f : A → B) → is_ok (m >>= λ a. ok (f a)) ≡ is_ok m
is_ok-map (ok a) f = refl
is_ok-map (err e) f = refl

split_ref_front :
    (s after : Text) → strip_prefix prefix s ≡ some after → split_ref s ≡ some ([], after)
unfolding split_ref
split_ref_front [] after h = absurd (unfold strip_prefix in cc)
split_ref_front (c ∷ s) after h = rw (h, split_ref)

references_loop-nil : (fuel : ℕ) → references_loop fuel [] ≡ ok []
unfolding references_loop
references_loop-nil zero = refl
references_loop-nil (suc fuel) = refl

whole_parts :
    (s key : Text)
    → whole_ref s ≡ some key
    → (after : Text) × (strip_prefix prefix s ≡ some after) × (read_key after ≡ some (key, []))
unfolding whole_ref
whole_parts s key h = elim (Option-cases (strip_prefix prefix s)) [
  | inl e ↦ absurd (let h' = rw (e, whole_ref) at h in cc)
  | inr (after, e) ↦ elim (Option-cases (read_key after)) [
    | inl e' ↦ absurd (let h' = rw (e, whole_ref, e') at h in cc)
    | inr ((k, []), e') ↦ (after, e, let h' = rw (e, whole_ref, e') at h in ground arith)
    | inr ((k, c ∷ behind), e') ↦ absurd (let h' = rw (e, whole_ref, e') at h in cc)
  ]
]

-- A text that is one reference holds this reference alone.
references_whole : (s key : Text) → whole_ref s ≡ some key → references s ≡ ok (key ∷ [])
unfolding references
references_whole s key h =
    let (after, e, e') = whole_parts s key h in
    rw (split_ref_front s after e, references_loop, e', references_loop-nil (length s))

module _ (host : Host) (vars : EnvSet) where
  -- one reference: the resolver reads its value first, the gate after it has read all keys
  round_agrees :
      (key before : Text) (g : Fallible EnvValue) (r : Fallible Text) (m : Fallible (List Text))
      → get_env vars key ≡ g
      → is_ok r ≡ is_ok (m >>= check_keys vars)
      → is_ok (
          g >>= λ (v : EnvValue).
          r >>= λ (out : Text). ok (before ++ (scalar_to_string host v.value ++ out)))
        ≡ is_ok ((m >>= λ (keys : List Text). ok (key ∷ keys)) >>= check_keys vars)
  unfolding check_keys
  round_agrees key before (ok v) (ok out) (ok keys) e h = rw (e, check_keys) h
  round_agrees key before (ok v) (err x) (ok keys) e h = rw (e, check_keys) h
  round_agrees key before (err x) r (ok keys) e h = rw (e, check_keys)
  round_agrees key before (ok v) (ok out) (err y) e h = h
  round_agrees key before (ok v) (err x) (err y) e h = refl
  round_agrees key before (err x) r (err y) e h = refl

  loops_agree :
      (fuel : ℕ) (s : Text)
      → is_ok (resolve_loop host fuel vars s) ≡ is_ok (references_loop fuel s >>= check_keys vars)
  unfolding resolve_loop references_loop
  loops_agree zero s = unfold check_keys in refl
  loops_agree (suc fuel) s = elim (Option-cases (split_ref s)) [
    | inl e ↦ rw (e, resolve_loop, references_loop) (unfold check_keys in refl)
    | inr ((before, after), e) ↦ elim (Option-cases (read_key after)) [
      | inl e' ↦ rw (e, resolve_loop, references_loop, e')
      | inr ((key, behind), e') ↦
          rw (e, resolve_loop, references_loop, e')
            (round_agrees key before (get_env vars key) (resolve_loop host fuel vars behind)
              (references_loop fuel behind) refl (loops_agree fuel behind))
    ]
  ]

  single :
      (g : Fallible EnvValue)
      → is_ok (g >>= λ (v : EnvValue). ok (some (EnvValue.value v)))
        ≡ is_ok (g >>= λ (v : EnvValue). check_keys vars [])
  unfolding check_keys
  single (ok v) = refl
  single (err e) = refl

  -- A text that holds a reference resolves exactly when the gate lets it pass, which reads all its
  -- references beforehand.
  pub resolve_string_iff :
      (s : Text)
      → contains_ref s ≡ true
      → is_ok (resolve_string host s vars) ≡ is_ok (assert_refs_defined s vars)
  unfolding resolve_string assert_refs_defined check_keys
  resolve_string_iff s c = elim (Option-cases (whole_ref s)) [
    | inl e ↦
        rw (c, resolve_string, e)
          (is_ok-map (resolve_loop host (suc (length s)) vars s) (λ out. some (string out))
            ∙ loops_agree (suc (length s)) s)
    | inr (key, e) ↦
        rw (c, resolve_string, e, references_whole s key e, assert_refs_defined, check_keys)
          (single (get_env vars key))
  ]
