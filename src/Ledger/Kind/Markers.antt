-- ===== src/Ledger/Kind/Markers.antt =====
-- crates/wfe-core/src/v22/wfah_kind.rs against the writers of pipeline.rs and ownership.rs: what
-- the engine writes into a row's action reads back as it was meant.
use mathlib.Core.List.{reverse-append}
use agnoflow_engine.Prelude.{
  ℕ, zero, suc, ◌^◌, ◌≤◌, ◌<◌, ◌≡◌, ◌≢◌, refl, sym, ap, ◌∙◌, none, some, [], ◌∷◌, ◌++◌,
  append_assoc, arith, Text, Free, codes, text_eq, text_eq_iff, strip_prefix, strip_prefix-append,
  strip_prefix-eq, split_once-eq, Option-cases, strip_suffix, strip_suffix-append,
  rsplit_once-append, split_once, split_once-append, parse_usize-decimal_text, decimal_text,
  decimal_text-Free, decimal_text_last, length, length-append, Bool-cases, inl, inr, if◌then◌else◌,
}
use agnoflow_engine.Ledger.Kind.{
  plain, escalation, escalation_skipped, claim_taken, claim_released, call_return, call_truncated,
  parse_step, parse_escalation, parse_own, parse_layers, parse_marker, escalation_marker,
  skipped_escalation_marker, claim_taken_marker, claim_released_marker,
}

parse_step_written :
    (k : agnoflow_engine.Ledger.Kind.WfahKind) (node_key : Text) (idx : ℕ)
    → idx < 2 ^ 64
    → parse_step k (node_key ++ b':' ∷ decimal_text idx)
      ≡ record (plain k) { node = some node_key; step = some idx }
unfolding parse_step
parse_step_written k node_key idx h = rw (
  rsplit_once-append b':' node_key (decimal_text idx) (decimal_text-Free b':' idx refl),
  parse_step,
  parse_usize-decimal_text idx h,
)

-- A text that ends in a digit does not end in `:skipped`.
not_skipped :
    (front : Text) (c : ℕ) → (b'd' ≢ c) → strip_suffix (codes ":skipped") (front ++ c ∷ []) ≡ none
unfolding strip_suffix strip_prefix
not_skipped front c h = rw reverse-append (ground arith)

pub written_not_skipped :
    (node_key : Text) (idx : ℕ)
    → strip_suffix (codes ":skipped") (node_key ++ b':' ∷ decimal_text idx) ≡ none
written_not_skipped node_key idx =
    let (front, c, e, d) = decimal_text_last idx in
    rw (e, ← append_assoc node_key (b':' ∷ front) (c ∷ []))
      (not_skipped (node_key ++ b':' ∷ front) c (ground arith))

parse_marker_escalate :
    (rest : Text) → parse_marker (codes "escalate:" ++ rest) ≡ parse_escalation rest
unfolding parse_marker strip_prefix
parse_marker_escalate rest = refl

-- The row that a fired escalation writes reads back as the escalation of its node, at its step,
-- whatever the node's key holds; for a step below 2^64.
pub parse_marker-escalation_marker :
    (node_key : Text) (idx : ℕ)
    → idx < 2 ^ 64
    → parse_marker (escalation_marker node_key idx)
      ≡ record (plain escalation) { node = some node_key; step = some idx }
unfolding escalation_marker parse_escalation
parse_marker-escalation_marker node_key idx h =
    parse_marker_escalate (node_key ++ b':' ∷ decimal_text idx)
    ∙ rw (written_not_skipped node_key idx, parse_escalation)
        (parse_step_written escalation node_key idx h)

-- The row of a skipped escalation reads back as skipped, with its node and its step; for a step
-- below 2^64.
pub parse_marker-skipped_escalation_marker :
    (node_key : Text) (idx : ℕ)
    → idx < 2 ^ 64
    → parse_marker (skipped_escalation_marker node_key idx)
      ≡ record (plain escalation_skipped) { node = some node_key; step = some idx }
unfolding skipped_escalation_marker escalation_marker parse_escalation
parse_marker-skipped_escalation_marker node_key idx h =
    parse_marker_escalate ((node_key ++ b':' ∷ decimal_text idx) ++ codes ":skipped")
    ∙ rw
        (
          strip_suffix-append (codes ":skipped") (node_key ++ b':' ∷ decimal_text idx),
          parse_escalation,
        )
        (parse_step_written escalation_skipped node_key idx h)

-- The rows by which the work is taken and released read back with their node, whatever its key
-- holds.
pub parse_marker_ownership :
    (node_key : Text)
    → (parse_marker (claim_taken_marker node_key)
        ≡ record (plain claim_taken) { node = some node_key })
      × (parse_marker (claim_released_marker node_key)
          ≡ record (plain claim_released) { node = some node_key })
unfolding parse_marker claim_taken_marker claim_released_marker strip_prefix
parse_marker_ownership node_key = (refl, refl)

inner_short :
    (raw rest key inner : Text)
    → strip_prefix (codes "call:") raw ≡ some rest
    → split_once b'/' rest ≡ some (key, inner)
    → length inner < length raw
inner_short raw rest key inner e e' = omega (
  arith,
  ap length (strip_prefix-eq (codes "call:") raw rest e),
  ap length (split_once-eq b'/' rest e'),
  length-append key (b'/' ∷ inner),
)

layers_own :
    (fuel : ℕ) (raw : Text)
    → strip_prefix (codes "call:") raw ≡ none
    → parse_layers (suc fuel) raw ≡ parse_own raw
unfolding parse_layers
layers_own fuel raw e = rw (e, parse_layers)

layers_return :
    (fuel : ℕ) (raw rest : Text)
    → strip_prefix (codes "call:") raw ≡ some rest
    → split_once b'/' rest ≡ none
    → parse_layers (suc fuel) raw ≡ record (plain call_return) { from_call = some rest }
unfolding parse_layers
layers_return fuel raw rest e e' = rw (e, parse_layers, e')

layers_call :
    (fuel : ℕ) (raw rest key inner : Text)
    → strip_prefix (codes "call:") raw ≡ some rest
    → split_once b'/' rest ≡ some (key, inner)
    → parse_layers (suc fuel) raw ≡ (
        if text_eq inner (codes "…")
        then record (plain call_truncated) { from_call = some key }
        else record (parse_layers fuel inner) { from_call = some key })
unfolding parse_layers
layers_call fuel raw rest key inner e e' = rw (e, parse_layers, e')

-- More rounds than the text is long change nothing.
layers_enough :
    (fuel more : ℕ) (raw : Text)
    → length raw ≤ fuel
    → fuel ≤ more
    → parse_layers more raw ≡ parse_layers fuel raw
layers_enough zero zero raw fits le = refl
layers_enough zero (suc more) [] fits le = unfold parse_layers strip_prefix in refl
layers_enough zero (suc more) (c ∷ raw) fits le = absurd (omega arith)
layers_enough (suc fuel) zero raw fits le = absurd (omega arith)
layers_enough (suc fuel) (suc more) raw fits le =
    elim (Option-cases (strip_prefix (codes "call:") raw)) [
      | inl e ↦ layers_own more raw e ∙ sym (layers_own fuel raw e)
      | inr (rest, e) ↦ elim (Option-cases (split_once b'/' rest)) [
        | inl e' ↦ layers_return more raw rest e e' ∙ sym (layers_return fuel raw rest e e')
        | inr ((key, inner), e') ↦
            let short : length inner < length raw = inner_short raw rest key inner e e' in
            layers_call more raw rest key inner e e'
            ∙ rw (layers_enough fuel more inner (omega arith) (omega arith))
                (sym (layers_call fuel raw rest key inner e e'))
      ]
    ]

-- A row of a called workflow, inlined behind `call:<key>/`, has the kind, node, step and name of
-- the row itself, and the key of the outermost call; for a key without `/` and a row that is not
-- the mark `…` of a truncated inlining.
pub parse_marker_call :
    (key inner : Text)
    → Free b'/' key
    → inner ≢ codes "…"
    → parse_marker (codes "call:" ++ (key ++ b'/' ∷ inner))
      ≡ record (parse_marker inner) { from_call = some key }
unfolding parse_marker
parse_marker_call key inner f ne = elim (Bool-cases (text_eq inner (codes "…"))) [
  | inl t ↦ absurd (ne ((text_eq_iff inner (codes "…")).0 t))
  | inr no_dots ↦
      let rest : Text = key ++ b'/' ∷ inner in
      layers_call (length (codes "all:" ++ rest)) (codes "call:" ++ rest) rest key inner
        (strip_prefix-append (codes "call:") rest) (split_once-append b'/' key inner f)
      ∙ rw (
        no_dots,
        layers_enough (length inner) (length (codes "all:" ++ rest)) inner (omega arith)
            (omega (arith, length-append key (b'/' ∷ inner))),
      )
]
