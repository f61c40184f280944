-- ===== src/Prelude/Dicts.antt =====
-- Dictionaries with text keys (`BTreeMap<String, V>`) as association lists, and the laws of
-- `get` and `insert`. The order of the entries is not modelled: lookups do not read it.
use mathlib.Core.Path.{◌≡◌, refl}
use mathlib.Core.List.{List, [], ◌∷◌, Memᴰ}
use mathlib.Core.Option.{Option, none, some}
use mathlib.Core.Logic.{inl, inr}
use native.Mathlib.Omega.{arith}
use agnoflow_engine.Prelude.Tests.{if◌then◌else◌, Bool-cases}
use agnoflow_engine.Prelude.Texts.{Text, text_eq, text_eq_iff, text_eq_sound}

abbrev pub Dict {ℓ} : Type ℓ → Type ℓ
Dict V = List (Text × V)

module _ {ℓ} {V : Type ℓ} where
  unfoldable pub lookup : Text → Dict V → Option V
  lookup k [] = none
  lookup k ((j, v) ∷ m) = let rest = lookup k m in if text_eq j k then some v else rest

  pub insert : Text → V → Dict V → Dict V
  insert k v [] = (k, v) ∷ []
  insert k v ((j, w) ∷ m) =
      let rest = insert k v m in if text_eq j k then (k, v) ∷ m else (j, w) ∷ rest

  pub lookup-insert :
      (k j : Text) (v : V) (m : Dict V)
      → lookup j (insert k v m) ≡ (if text_eq k j then some v else lookup j m)
  unfolding lookup insert
  lookup-insert k j v [] = refl
  lookup-insert k j v ((i, w) ∷ m) =
      ground (arith, text_eq_iff k j, text_eq_iff i k, text_eq_iff i j, lookup-insert k j v m)

  pub lookup-mem : {v : V} (k : Text) (m : Dict V) → lookup k m ≡ some v → Memᴰ (k, v) m
  unfolding lookup
  lookup-mem k [] h = absurd (cc)
  lookup-mem {v} k ((j, w) ∷ m) h = elim (Bool-cases (text_eq j k)) [
    | inl t ↦ Memᴰ.head (ground (arith, text_eq_sound j k t))
    | inr f ↦ Memᴰ.tail (lookup-mem k m (rw f at h))
  ]
