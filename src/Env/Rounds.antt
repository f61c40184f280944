-- ===== src/Env/Rounds.antt =====
-- crates/wfe-core/src/v22/env.rs: the loops over a text's references have enough rounds.
use agnoflow_engine.Prelude.{
  ℕ, zero, suc, ◌≤◌, ◌<◌, ◌≡◌, ap, some, [], ◌∷◌, inl, inr, arith, Option-cases, Text, length,
  strip_prefix, strip_prefix-eq,
}
use agnoflow_engine.Types.Host.{Host}
use agnoflow_engine.Env.{
  EnvSet, prefix, split_ref, span_key, starts_upper, read_key, references_loop, resolve_loop,
}

split_ref_short :
    (s before after : Text) → split_ref s ≡ some (before, after) → length after < length s
unfolding split_ref
split_ref_short [] before after h = absurd (cc)
split_ref_short (c ∷ s) before after h = elim (Option-cases (strip_prefix prefix (c ∷ s))) [
  | inr (r, e) ↦
      let same : r ≡ after = let h' = rw (e, split_ref) at h in ground arith in
      let whole = ap length (strip_prefix-eq prefix (c ∷ s) r e) in
      let size = ap length same in omega arith
  | inl e ↦ elim (Option-cases (split_ref s)) [
    | inl e' ↦ absurd (let h' = rw (e, split_ref, e') at h in cc)
    | inr ((b, a), e') ↦
        let same : a ≡ after = let h' = rw (e, split_ref, e') at h in ground arith in
        let ih = split_ref_short s b a e' in let size = ap length same in omega arith
  ]
]

span_key_short : (s : Text) → length (span_key s).1 ≤ length s
unfolding span_key
span_key_short [] = omega arith
span_key_short (c ∷ s) = ground (arith, span_key_short s)

starts_upper_rest :
    (p : Text × Text) (key behind : Text) → starts_upper p ≡ some (key, behind) → p.1 ≡ behind
starts_upper_rest ([], rest) key behind h = absurd (cc)
starts_upper_rest (c ∷ k, rest) key behind h = ground arith

read_key_short :
    (after key behind : Text) → read_key after ≡ some (key, behind) → length behind ≤ length after
unfolding read_key
read_key_short after key behind h =
    omega (arith, span_key_short after, ap length (starts_upper_rest (span_key after) key behind h))

-- The scan for references ends by itself: from one round more than the text has characters, further
-- rounds change nothing.
pub references_loop_enough :
    (fuel more : ℕ) (s : Text)
    → length s < fuel
    → fuel ≤ more
    → references_loop more s ≡ references_loop fuel s
unfolding references_loop
references_loop_enough zero more s fits le = absurd (omega arith)
references_loop_enough (suc fuel) zero s fits le = absurd (omega arith)
references_loop_enough (suc fuel) (suc more) s fits le = elim (Option-cases (split_ref s)) [
  | inl e ↦ rw (e, references_loop)
  | inr ((before, after), e) ↦ elim (Option-cases (read_key after)) [
    | inl e' ↦ rw (e, references_loop, e')
    | inr ((key, behind), e') ↦
        let short = split_ref_short s before after e in
        let shorter = read_key_short after key behind e' in
        rw (
          e,
          references_loop,
          e',
          references_loop_enough fuel more behind (omega arith) (omega arith),
        )
  ]
]

-- The loop that writes the values into a text ends by itself: from one round more than the text has
-- characters, further rounds change nothing.
pub resolve_loop_enough :
    (host : Host) (vars : EnvSet) (fuel more : ℕ) (s : Text)
    → length s < fuel
    → fuel ≤ more
    → resolve_loop host more vars s ≡ resolve_loop host fuel vars s
unfolding resolve_loop
resolve_loop_enough host vars zero more s fits le = absurd (omega arith)
resolve_loop_enough host vars (suc fuel) zero s fits le = absurd (omega arith)
resolve_loop_enough host vars (suc fuel) (suc more) s fits le = elim (Option-cases (split_ref s)) [
  | inl e ↦ rw (e, resolve_loop)
  | inr ((before, after), e) ↦ elim (Option-cases (read_key after)) [
    | inl e' ↦ rw (e, resolve_loop, e')
    | inr ((key, behind), e') ↦
        let short = split_ref_short s before after e in
        let shorter = read_key_short after key behind e' in
        rw (
          e,
          resolve_loop,
          e',
          resolve_loop_enough host vars fuel more behind (omega arith) (omega arith),
        )
  ]
]
