-- ===== src/Types/Equality.antt =====
-- The equality of `serde_json::Value`.
use agnoflow_engine.Prelude.{ℕ, ◌+◌, ◌^◌, Bool, true, false, ◌&&◌, ◌||◌, none, some, ◌==◌, text_eq}
use agnoflow_engine.Types.Json.{
  Number, pos_int, neg_int, float, Json, null, bool, number, string, array, object, Items, nil,
  cons, Fields, end, field, get_field,
}

-- `Value`'s equality: the two zeros of `f64` are equal, and an object's entries have no order
abbrev is_zero : ℕ → Bool
is_zero bits = bits == 0 || bits == 2 ^ 63

abbrev number_eq : Number → Number → Bool
number_eq (pos_int a) (pos_int b) = a == b
number_eq (neg_int a) (neg_int b) = a == b
number_eq (float a) (float b) = a == b || (is_zero a && is_zero b)
number_eq _ _ = false

abbrev bool_eq : Bool → Bool → Bool
bool_eq true b = b
bool_eq false true = false
bool_eq false false = true

abbrev pub size : Fields → ℕ
size end = 0
size (field k v m) = size m + 1

unfoldable mutual
  pub json_eq : Json → Json → Bool
  json_eq null null = true
  json_eq (bool a) (bool b) = bool_eq a b
  json_eq (number a) (number b) = number_eq a b
  json_eq (string s) (string t) = text_eq s t
  json_eq (array xs) (array ys) = items_eq xs ys
  json_eq (object m) (object n) = size m == size n && fields_within m n
  json_eq _ _ = false

  items_eq : Items → Items → Bool
  items_eq nil nil = true
  items_eq (cons x xs) (cons y ys) = json_eq x y && items_eq xs ys
  items_eq _ _ = false

  -- each entry is in the other object
  fields_within : Fields → Fields → Bool
  fields_within end n = true
  fields_within (field k v m) n =
      elim (get_field k n) [ none ↦ false | some w ↦ json_eq v w ] && fields_within m n
