-- ===== src/Pipeline/Input/Leaves.antt =====
-- crates/wfe-core/src/v22/pipeline.rs (`collect_leaf_paths`): the paths of an input's leaves.
use agnoflow_engine.Prelude.{◌≢◌, inl, inr, [], ◌∷◌, Memᴰ, Memᴰ-cases, mem-append, Text}
use agnoflow_engine.Types.Json.{Json, Fields, null, bool, number, string, array, object, end, field}
use agnoflow_engine.Pipeline.Input.{at_path, own_path, collect_leaf_paths, field_leaf_paths}

-- a value that the walk does not enter
abbrev pub IsLeaf : Json → Type 0
IsLeaf (object (field k v m)) = ⊥
IsLeaf _ = Unit

-- an entry of an object
pub data FieldOf (k : Text) (v : Json) : Fields → Type 0 where
  first : {m : Fields} → FieldOf k v (field k v m)
  later : {j : Text} {w : Json} {m : Fields} → FieldOf k v m → FieldOf k v (field j w m)

-- The value that stands at the first path has a leaf at the second: itself, or a leaf of an entry. The
-- whole input stands at no path, and is no leaf of itself.
pub data LeafAt : Json → Text → Text → Type 0 where
  itself : {v : Json} {path : Text} → IsLeaf v → path ≢ [] → LeafAt v path path
  below :
      {m : Fields} {path leaf k : Text} {v : Json}
      → FieldOf k v m
      → LeafAt v (at_path path k) leaf
      → LeafAt (object m) path leaf

own_sound :
    {v : Json} (path : Text) {leaf : Text}
    → IsLeaf v
    → Memᴰ leaf (own_path path)
    → LeafAt v path leaf
own_sound [] is m = elim m [ ]
own_sound {v} (c ∷ path) {leaf} is m = elim (Memᴰ-cases m) [
  | inl e ↦ rw e (itself is (λ q. cc))
  | inr k ↦ elim k [ ]
]

mutual
  unfolding collect_leaf_paths

  leaf_sound :
      (v : Json) (path : Text) {leaf : Text}
      → Memᴰ leaf (collect_leaf_paths v path)
      → LeafAt v path leaf
  leaf_sound null path m = own_sound path tt m
  leaf_sound (bool b) path m = own_sound path tt m
  leaf_sound (number n) path m = own_sound path tt m
  leaf_sound (string s) path m = own_sound path tt m
  leaf_sound (array xs) path m = own_sound path tt m
  leaf_sound (object end) path m = own_sound path tt m
  leaf_sound (object (field k v fs)) path m =
      let (j, w, e, l) = fields_sound (field k v fs) path m in below e l

  fields_sound :
      (fs : Fields) (path : Text) {leaf : Text}
      → Memᴰ leaf (field_leaf_paths fs path)
      → (k : Text) × (v : Json) × FieldOf k v fs × LeafAt v (at_path path k) leaf
  fields_sound end path m = elim m [ ]
  fields_sound (field k v fs) path {leaf} m =
      elim (mem-append (collect_leaf_paths v (at_path path k)) (field_leaf_paths fs path) m) [
        | inl h ↦ (k, v, first, leaf_sound v (at_path path k) h)
        | inr h ↦ let (j, w, e, l) = fields_sound fs path h in (j, w, later e, l)
      ]
