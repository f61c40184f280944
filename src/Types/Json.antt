-- ===== src/Types/Json.antt =====
-- `serde_json::Value`. An object is the list of its entries; a number is one of serde_json's three
-- forms (`PosInt`, `NegInt`, `Float`), a float given by the bits of its `f64`.
use agnoflow_engine.Prelude.{
  ℕ, ◌≡◌, refl, Bool, true, false, Option, none, some, List, [], ◌∷◌, arith, if◌then◌else◌, Text,
  text_eq, text_eq_iff, text_eq_refl,
}

pub data Number : Type 0 where
  pos_int neg_int float : ℕ → Number

mutual
  pub data Json : Type 0 where
    null : Json
    bool : Bool → Json
    number : Number → Json
    string : Text → Json
    array : Items → Json
    object : Fields → Json

  pub data Items : Type 0 where
    nil : Items
    cons : Json → Items → Items

  pub data Fields : Type 0 where
    end : Fields
    field : Text → Json → Fields → Fields

-- `Map::get` and `Map::insert`
unfoldable pub get_field : Text → Fields → Option Json
get_field k end = none
get_field k (field j v m) = let rest = get_field k m in if text_eq j k then some v else rest

unfoldable pub insert_field : Text → Json → Fields → Fields
insert_field k v end = field k v end
insert_field k v (field j w m) =
    let rest = insert_field k v m in if text_eq j k then field k v m else field j w rest

pub get_field-insert :
    (k j : Text) (v : Json) (m : Fields)
    → get_field j (insert_field k v m) ≡ (if text_eq k j then some v else get_field j m)
unfolding get_field insert_field
get_field-insert k j v end = refl
get_field-insert k j v (field i w m) =
    ground (arith, text_eq_iff k j, text_eq_iff i k, text_eq_iff i j, get_field-insert k j v m)

pub get_field-insert_self :
    (k : Text) (v : Json) (m : Fields) → get_field k (insert_field k v m) ≡ some v
get_field-insert_self k v m = rw (get_field-insert k k v m, text_eq_refl k)

-- `Value::get` with a text index: an object's entry, nothing of any other value
unfoldable pub get : Text → Json → Option Json
get k (object m) = get_field k m
get k _ = none

abbrev pub as_str : Json → Option Text
as_str (string s) = some s
as_str _ = none

abbrev pub as_object : Json → Option Fields
as_object (object m) = some m
as_object _ = none

abbrev pub as_bool : Json → Option Bool
as_bool (bool b) = some b
as_bool _ = none

abbrev pub items_list : Items → List Json
items_list nil = []
items_list (cons x xs) = x ∷ items_list xs

abbrev pub as_array : Json → Option (List Json)
as_array (array xs) = some (items_list xs)
as_array _ = none

abbrev pub is_object : Json → Bool
is_object (object m) = true
is_object _ = false

-- `Option<T>` serialises to its content or to `null`.
abbrev pub opt_string : Option Text → Json
opt_string none = null
opt_string (some s) = string s

abbrev pub opt_json : Option Json → Json
opt_json none = null
opt_json (some v) = v

-- `json!({ … })`
abbrev pub fields_of : List (Text × Json) → Fields
fields_of [] = end
fields_of ((k, v) ∷ kvs) = field k v (fields_of kvs)

abbrev pub obj : List (Text × Json) → Json
obj kvs = object (fields_of kvs)

abbrev pub list_items : List Json → Items
list_items [] = nil
list_items (x ∷ xs) = cons x (list_items xs)

abbrev pub arr : List Json → Json
arr xs = array (list_items xs)

abbrev pub opt_number : Option ℕ → Json
opt_number none = null
opt_number (some n) = number (pos_int n)
