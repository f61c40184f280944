-- ===== src/ContextTypes.antt =====
-- crates/wfe-core/src/v22/ctx_types.rs: the check of values against the document's context schema.
-- The schema validator is a parameter (`Host.schema_errors`).
use agnoflow_engine.Prelude.{
  ℕ, zero, suc, ◌+◌, Bool, true, false, not, Option, none, some, List, [], ◌∷◌, ◌++◌, ◌==◌, ltb,
  if◌then◌else◌, Text, codes, text_eq, split, any, all, filter, filter_map, map, length, is_digit,
  is_empty, and_then, map_opt, opt_eq, unwrap_or,
}
use agnoflow_engine.Types.Json.{
  Json, null, bool, number, string, array, object, Items, nil, cons, Fields, end, field, get_field,
  insert_field, get, as_str, as_object, as_array, arr,
}
use agnoflow_engine.Types.Equality.{json_eq}
use agnoflow_engine.Types.Errors.{Violation}
use agnoflow_engine.Types.Host.{Host}

pub data Resolved : Type 0 where
  found : Json → Resolved
  missing opaque_ : Resolved

abbrev pub max_deref_hops : ℕ
max_deref_hops = 16

-- a use's own entries over those of the definition, but for its name
pub merge : Fields → Fields → Fields
merge end out = out
merge (field k v m) out = merge m (if text_eq k (codes "format") then out else insert_field k v out)

abbrev def_name : Fields → Option Text
def_name m = and_then (get_field (codes "format") m) as_str

-- the definition of this name, with the node's own entries over it
pub named : Option Fields → Text → Fields → Option Json
unfolding merge
named defs name m =
    and_then defs
      λ ds. and_then (get_field name ds) λ def. map_opt (λ d. object (merge m d)) (as_object def)

abbrev pub next_hop : (Json → Option Json) → Option Fields → Json → Option Json
next_hop rest defs (object m) = elim (def_name m) [
  | none ↦ some (object m)
  | some name ↦ and_then (named defs name m) rest
]
next_hop rest defs v = some v

pub deref_hops : ℕ → Option Fields → Json → Option Json
unfolding named
deref_hops zero defs v = none
deref_hops (suc hops) defs v = next_hop (deref_hops hops defs) defs v

unfoldable pub deref : Option Fields → Json → Option Json
unfolding deref_hops
deref defs v = deref_hops max_deref_hops defs v

-- `iter().map(f).collect::<Option<_>>()`, over an array and over an object's entries
abbrev cons_opt : Option Json → Option Items → Option Items
cons_opt (some y) (some ys) = some (cons y ys)
cons_opt _ _ = none

pub each_item : (Json → Option Json) → Items → Option Items
each_item f nil = some nil
each_item f (cons x xs) = cons_opt (f x) (each_item f xs)

abbrev field_opt : Text → Option Json → Option Fields → Option Fields
field_opt k (some y) (some m) = some (field k y m)
field_opt k _ _ = none

pub each_field : (Json → Option Json) → Fields → Option Fields
each_field f end = some end
each_field f (field k v m) = field_opt k (f v) (each_field f m)

abbrev is_one_of : List Text → Text → Bool
is_one_of keys k = any (text_eq k) keys

abbrev pub props_keys : List Text
props_keys = codes "properties" ∷ codes "patternProperties" ∷ []

abbrev sub_keys : List Text
sub_keys =
    codes "items"
    ∷ codes "contains"
    ∷ codes "additionalProperties"
    ∷ codes "not"
    ∷ codes "if"
    ∷ codes "then"
    ∷ codes "else"
    ∷ []

abbrev pub list_keys : List Text
list_keys = codes "oneOf" ∷ codes "anyOf" ∷ codes "allOf" ∷ []

abbrev sub_schema : (Json → Option Json) → Json → Option Json
sub_schema f (array xs) = map_opt array (each_item f xs)
sub_schema f (object m) = f (object m)
sub_schema f v = some v

-- What becomes of an entry: it is kept as it is now, or left out; or the whole has no schema.
pub data Entry : Type 0 where
  keep : Json → Entry
  leave_out fail : Entry

abbrev kept : Option Json → Entry
kept (some v) = keep v
kept none = fail

abbrev object_entry : (Json → Option Json) → Json → Entry
object_entry f (object m) = kept (map_opt object (each_field f m))
object_entry f _ = leave_out

abbrev list_entry : (Json → Option Json) → Json → Entry
list_entry f (array xs) = kept (map_opt array (each_item f xs))
list_entry f _ = leave_out

pub inline_entry : (Json → Option Json) → Text → Json → Entry
unfolding each_item each_field
inline_entry f k v =
    if is_one_of props_keys k
    then object_entry f v
    else if is_one_of sub_keys k
    then kept (sub_schema f v)
    else if is_one_of list_keys k
    then list_entry f v
    else if text_eq k (codes "format")
    then leave_out
    else keep v

abbrev add_entry : Text → Entry → Option Fields → Option Fields
add_entry k (keep v) rest = map_opt (λ m. field k v m) rest
add_entry k leave_out rest = rest
add_entry k fail rest = none

pub inline_fields : (Json → Option Json) → Fields → Option Fields
unfolding inline_entry
inline_fields f end = some end
inline_fields f (field k v m) = add_entry k (inline_entry f k v) (inline_fields f m)

abbrev inline_resolved : (Json → Option Json) → Json → Option Json
inline_resolved f (object m) = map_opt object (inline_fields f m)
inline_resolved f v = some v

-- The source counts the depth up to `max_deref_hops`; here the levels that are left count down.
pub inline : ℕ → Option Fields → Json → Option Json
unfolding deref inline_fields
inline zero defs node = none
inline (suc levels) defs node = and_then (deref defs node) (inline_resolved (inline levels defs))

abbrev property : Text → Json → Option (Option Json)
property segment current =
    map_opt (get_field segment) (and_then (get (codes "properties") current) as_object)

abbrev finish : Option Fields → Json → Resolved
finish defs current = elim (inline (max_deref_hops + 1) defs current) [
  | none ↦ opaque_
  | some s ↦ found s
]

-- the loop over the path's segments
pub descend : Option Fields → List Text → Json → Resolved
unfolding inline
descend defs [] current = finish defs current
descend defs (segment ∷ path) current =
    let rest = descend defs path in
    elim (property segment current) [
      | none ↦ opaque_
      | some none ↦ missing
      | some (some next) ↦ elim (deref defs next) [ none ↦ opaque_ | some v ↦ rest v ]
    ]

abbrev pub defs_of : Json → Option Fields
defs_of context = and_then (get (codes "$defs") context) as_object

unfoldable pub field_schema : Json → Text → Resolved
unfolding descend
field_schema context path = elim (deref (defs_of context) context) [
  | none ↦ opaque_
  | some root ↦ descend (defs_of context) (split b'.' path) root
]

-- the schema with `null` allowed at every level
abbrev has_null_text : List Json → Bool
has_null_text = any (λ v. opt_eq text_eq (as_str v) (some (codes "null")))

abbrev is_null : Json → Bool
is_null null = true
is_null _ = false

pub relax_type : Json → Json
relax_type (string t) = arr (string t ∷ string (codes "null") ∷ [])
relax_type (array xs) =
    let ts = unwrap_or (as_array (array xs)) [] in
    if has_null_text ts then array xs else arr (ts ++ string (codes "null") ∷ [])
relax_type v = v

pub relax_enum : Json → Json
relax_enum (array xs) =
    let vs = unwrap_or (as_array (array xs)) [] in
    if any is_null vs then array xs else arr (vs ++ null ∷ [])
relax_enum v = v

abbrev relaxed_keys : List Text
relaxed_keys =
    codes "items"
    ∷ codes "contains"
    ∷ codes "additionalProperties"
    ∷ codes "then"
    ∷ codes "else"
    ∷ []

-- The values below an entry are relaxed where the entry's key holds schemas: an object of them, one
-- or an array of them, an array of them.
pub data Below : Type 0 where
  in_object in_either in_array as_is : Below

abbrev pub below : Text → Below
below k =
    if is_one_of props_keys k
    then in_object
    else if is_one_of relaxed_keys k
    then in_either
    else if is_one_of list_keys k
    then in_array
    else as_is

-- a key that is written twice keeps what is written last
abbrev earlier : Text → Json → Fields → Fields
earlier k v rest = elim (get_field k rest) [ none ↦ field k v rest | some w ↦ rest ]

unfoldable mutual
  unfolding relax_type relax_enum

  pub relax_nulls : Json → Json
  relax_nulls null = null
  relax_nulls (bool b) = bool b
  relax_nulls (number n) = number n
  relax_nulls (string s) = string s
  relax_nulls (array xs) = array xs
  relax_nulls (object m) = object (relax_fields m)

  relax_fields : Fields → Fields
  relax_fields end = end
  relax_fields (field k v m) =
      let rest = relax_fields m in
      let inner = relax_below v in
      if text_eq k (codes "type")
      then field k (relax_type v) rest
      else if text_eq k (codes "enum")
      then earlier k (relax_enum v) rest
      else if text_eq k (codes "const")
      then earlier (codes "enum") (arr (v ∷ null ∷ [])) rest
      else elim (inner (below k)) [ none ↦ rest | some w ↦ field k w rest ]

  -- what stands below a key; nothing is an entry that is left out
  relax_below : Json → Below → Option Json
  relax_below (object m) in_object = some (object (relax_each m))
  relax_below (object m) in_either = some (object (relax_fields m))
  relax_below (object m) in_array = some (object m)
  relax_below (object m) as_is = some (object m)
  relax_below (array xs) in_object = none
  relax_below (array xs) in_either = some (array (relax_items xs))
  relax_below (array xs) in_array = some (array (relax_items xs))
  relax_below (array xs) as_is = some (array xs)
  relax_below null in_object = none
  relax_below null _ = some null
  relax_below (bool b) in_object = none
  relax_below (bool b) _ = some (bool b)
  relax_below (number n) in_object = none
  relax_below (number n) _ = some (number n)
  relax_below (string s) in_object = none
  relax_below (string s) _ = some (string s)

  relax_each : Fields → Fields
  relax_each end = end
  relax_each (field k v m) = field k (relax_nulls v) (relax_each m)

  relax_items : Items → Items
  relax_items nil = nil
  relax_items (cons x xs) = cons (relax_nulls x) (relax_items xs)

abbrev step_in : Text → Json → Option Json
step_in segment current =
    if all is_digit segment
    then get (codes "items") current
    else and_then (get (codes "properties") current) (get segment)

-- the schema at a path of the value, as far as it leads
pub schema_at : List Text → Json → Json
schema_at [] current = current
schema_at (segment ∷ path) current =
    let rest = schema_at path in elim (step_in segment current) [ none ↦ current | some n ↦ rest n ]

abbrev segments : Text → List Text
segments path = filter (λ s. not (is_empty s)) (split b'/' path)

abbrev joined : Text → List Text → Text
joined sep [] = []
joined sep (x ∷ []) = x
joined sep (x ∷ y ∷ xs) = x ++ (sep ++ joined sep (y ∷ xs))

abbrev dotted : Text → Text
dotted = map (λ c. if c == b'/' then b'.' else c)

take_text : ℕ → Text → Text
take_text zero s = []
take_text (suc n) [] = []
take_text (suc n) (c ∷ cs) = c ∷ take_text n cs

-- `dedup_by`, on the path: of neighbours the first stays
pub dedup_paths : Option Text → List Violation → List Violation
dedup_paths last [] = []
dedup_paths last (v ∷ vs) =
    let rest = dedup_paths (some v.path) vs in
    if opt_eq text_eq last (some v.path) then rest else v ∷ rest

module _ (host : Host) where
  type_text : Json → Text
  type_text schema = elim (get (codes "type") schema) [
    | some (string s) ↦ s
    | some (array xs) ↦ joined (codes "|") (filter_map as_str (unwrap_or (as_array (array xs)) []))
    | _ ↦ []
  ]

  value_text : Json → Text
  value_text (string s) = s
  value_text v = host.json_text v

  enum_part : Json → List Text
  unfolding value_text
  enum_part schema = elim (get (codes "enum") schema) [
    | some (array xs) ↦
        (codes "seçenekler: "
          ++ joined (codes ", ") (map value_text (unwrap_or (as_array (array xs)) [])))
        ∷ []
    | _ ↦ []
  ]

  pattern_part : Json → List Text
  pattern_part schema = elim (and_then (get (codes "pattern") schema) as_str) [
    | none ↦ []
    | some p ↦ (codes "desen: " ++ p) ∷ []
  ]

  bound_part : Json → Text × Text → List Text
  bound_part schema (key, label) = elim (get key schema) [
    | none ↦ []
    | some v ↦ (label ++ (codes " " ++ host.json_text v)) ∷ []
  ]

  abbrev type_part : Text → List Text
  type_part ty = if is_empty ty then [] else ty ∷ []

  abbrev summary_of : List Text → Text
  summary_of parts =
      if is_empty parts then codes "şemadaki kurala uygun" else joined (codes " · ") parts

  pub expected_summary : Json → Text
  unfolding type_text enum_part pattern_part bound_part
  expected_summary schema = summary_of (
      type_part (type_text schema)
      ++ (enum_part schema
          ++ (pattern_part schema
              ++ (bound_part schema (codes "minimum", codes "en az")
                  ++ (bound_part schema (codes "maximum", codes "en çok")
                      ++ (bound_part schema (codes "minLength", codes "en az uzunluk")
                          ++ bound_part schema (codes "maxLength", codes "en çok uzunluk")))))))

  abbrev type_name : Json → Text
  type_name null = codes "null"
  type_name (bool b) = codes "boolean"
  type_name (number n) = codes "number"
  type_name (string s) = codes "string"
  type_name (array xs) = codes "array"
  type_name (object m) = codes "object"

  pub got_summary : Json → Text
  unfolding take_text
  got_summary v =
      let text = host.json_text v in
      type_name v
      ++ (codes " " ++ (if ltb 60 (length text) then take_text 57 text ++ codes "…" else text))

  violation : Json → Text → Text × Json → Violation
  unfolding expected_summary got_summary schema_at
  violation schema path (inner, value) = record {
    path = if is_empty inner then path else path ++ dotted inner;
    expected = expected_summary (schema_at (segments inner) schema);
    got = got_summary value;
  }

  pub violations_against : Json → Text → Json → List Violation
  unfolding violation dedup_paths relax_nulls
  violations_against schema path value = elim (host.schema_errors (relax_nulls schema) value) [
    | none ↦ []
    | some errors ↦ dedup_paths none (map (violation schema path) errors)
  ]

  unfoldable pub validate_at : Json → Text → Json → List Violation
  unfolding violations_against
  validate_at context path value = if is_null value then [] else elim (field_schema context path) [
    | found schema ↦ violations_against schema path value
    | missing ↦ []
    | opaque_ ↦ []
  ]

  -- `value_at`
  abbrev pub value_at : List Text → Json → Option Json
  value_at [] value = some value
  value_at (segment ∷ path) value = and_then (get segment value) (value_at path)

  unfoldable pub validate_input : Json → List Text → Json → List Violation
  unfolding validate_at
  validate_input context [] input = []
  validate_input context (path ∷ paths) input =
      elim (value_at (split b'.' path) input) [ none ↦ [] | some v ↦ validate_at context path v ]
      ++ validate_input context paths input

  pub record DynctxReport : Type 0 where
    pub violations : List Violation
    pub undeclared : List Text

  abbrev report_field : Json → Text → Json → DynctxReport → DynctxReport
  report_field context name value report =
      if is_null value then report else elim (field_schema context name) [
        | found schema ↦ record report {
          violations = violations_against schema name value ++ report.violations;
        }
        | missing ↦ record report { undeclared = name ∷ report.undeclared }
        | opaque_ ↦ report
      ]

  pub report_fields : Json → Fields → DynctxReport
  unfolding violations_against
  report_fields context end = record { violations = []; undeclared = [] }
  report_fields context (field k v m) = report_field context k v (report_fields context m)

  pub validate_dynctx : Json → Json → DynctxReport
  unfolding report_fields
  validate_dynctx context (object m) = report_fields context m
  validate_dynctx context _ = record { violations = []; undeclared = [] }

  -- a field that this transition has not written is not asked
  unfoldable pub written_field : Json → Json → Text → Json → List Violation
  unfolding validate_at
  written_field context before name value =
      if opt_eq json_eq (get name before) (some value) then [] else validate_at context name value

  unfoldable pub written_fields : Json → Json → Fields → List Violation
  unfolding written_field
  written_fields context before end = []
  written_fields context before (field k v m) =
      written_field context before k v ++ written_fields context before m

  unfoldable pub validate_written : Json → Json → Json → List Violation
  unfolding written_fields
  validate_written context before (object m) = written_fields context before m
  validate_written context before _ = []
