-- ===== src/Effects/Paths.antt =====
-- crates/wfe-core/src/v22/effects.rs: `set_path` and `get_path`.
use agnoflow_engine.Prelude.{
  ◌≡◌, ◌≢◌, ◌⊎◌, refl, ◌∙◌, Option, none, some, List, [], ◌∷◌, ◌==◌, inl, inr, arith, Bool-cases,
  Text, split, and_then, text_eq_iff,
}
use agnoflow_engine.Types.Json.{
  Json, null, bool, number, string, array, object, Fields, get_field, insert_field, get,
  get_field-insert, get_field-insert_self,
}
use agnoflow_engine.Effects.{get_parts, get_path, object_of, child, set_parts, set_path}

-- the paths part at some segment, before either ends
unfoldable pub Apart : List Text → List Text → Type 0
Apart (p ∷ ps) (q ∷ qs) = (p ≢ q) ⊎ ((p ≡ q) × Apart ps qs)
Apart ps qs = ⊥

get_parts-set_parts :
    (p : Text) (ps : List Text) (v : Json) (root : Fields)
    → get_parts (p ∷ ps) (object (set_parts (p ∷ ps) v root)) ≡ some v
unfolding get_parts set_parts get
get_parts-set_parts p [] v root = rw (get_field-insert_self p v root)
get_parts-set_parts p (n ∷ ps) v root =
    rw (get_field-insert_self p (object (set_parts (n ∷ ps) v (child p root))) root)
      (get_parts-set_parts n ps v (child p root))

get_parts-object_of :
    (r : Text) (qs : List Text) (o : Option Json)
    → get_parts (r ∷ qs) (object (object_of o)) ≡ and_then o (get_parts (r ∷ qs))
unfolding get_parts get get_field
get_parts-object_of r qs none = refl
get_parts-object_of r qs (some null) = refl
get_parts-object_of r qs (some (bool b)) = refl
get_parts-object_of r qs (some (number n)) = refl
get_parts-object_of r qs (some (string s)) = refl
get_parts-object_of r qs (some (array xs)) = refl
get_parts-object_of r qs (some (object m)) = refl

-- an entry of the child is what the path finds behind the entry of the root
get_parts-child :
    (q r : Text) (qs : List Text) (root : Fields)
    → get_parts (r ∷ qs) (object (child q root)) ≡ and_then (get_field q root) (get_parts (r ∷ qs))
get_parts-child q r qs root = get_parts-object_of r qs (get_field q root)

get_field-insert_other :
    (p q : Text) (v : Json) (root : Fields)
    → p ≢ q
    → get_field q (insert_field p v root) ≡ get_field q root
get_field-insert_other p q v root ne =
    rw (get_field-insert p q v root) (ground (arith, text_eq_iff p q))

get_parts-set_parts_other :
    (ps qs : List Text) (v : Json) (root : Fields)
    → Apart ps qs
    → get_parts qs (object (set_parts ps v root)) ≡ get_parts qs (object root)
unfolding get_parts set_parts get Apart
get_parts-set_parts_other [] qs v root apart = absurd apart
get_parts-set_parts_other (p ∷ ps) [] v root apart = absurd apart
get_parts-set_parts_other (p ∷ []) (q ∷ qs) v root (inl ne) =
    rw (get_field-insert_other p q v root ne)
get_parts-set_parts_other (p ∷ []) (q ∷ qs) v root (inr (e, apart)) = absurd apart
get_parts-set_parts_other (p ∷ n ∷ ps) (q ∷ qs) v root (inl ne) =
    rw (get_field-insert_other p q (object (set_parts (n ∷ ps) v (child p root))) root ne)
get_parts-set_parts_other (p ∷ n ∷ ps) (q ∷ []) v root (inr (e, apart)) = absurd apart
get_parts-set_parts_other (p ∷ n ∷ ps) (q ∷ r ∷ qs) v root (inr (e, apart)) =
    rw (e, get_field-insert_self q (object (set_parts (n ∷ ps) v (child q root))) root)
      (get_parts-set_parts_other (n ∷ ps) (r ∷ qs) v (child q root) apart
        ∙ get_parts-child q r qs root)

split-cons : (s : Text) → (p : Text) × (ps : List Text) × (split b'.' s ≡ p ∷ ps)
unfolding split
split-cons [] = ([], [], refl)
split-cons (x ∷ s) =
    let (p, ps, e) = split-cons s in
    elim (Bool-cases (x == b'.')) [
      | inl t ↦ ([], p ∷ ps, rw (t, split, e))
      | inr f ↦ (x ∷ p, ps, rw (f, split, e))
    ]

-- A path reads what was written to it, whatever stood on the way.
pub get_path-set_path :
    (root : Fields) (path : Text) (v : Json)
    → get_path (object (set_path root path v)) path ≡ some v
unfolding get_path set_path
get_path-set_path root path v =
    let (p, ps, e) = split-cons path in rw e (get_parts-set_parts p ps v root)

-- A write leaves every path alone that parts from its own at some segment.
pub get_path-set_path_other :
    (root : Fields) (path other : Text) (v : Json)
    → Apart (split b'.' path) (split b'.' other)
    → get_path (object (set_path root path v)) other ≡ get_path (object root) other
unfolding get_path set_path
get_path-set_path_other root path other v apart =
    get_parts-set_parts_other (split b'.' path) (split b'.' other) v root apart
