-- ===== src/Pipeline/Input.antt =====
-- crates/wfe-core/src/v22/pipeline.rs: the contract of an action's input (`validate_action_input`),
-- and the gate on what a transition has written (`guard_written_ctx`).
pub mod Contract
pub mod Leaves
use agnoflow_engine.Prelude.{
  Bool, true, false, ◌||◌, not, Option, none, some, List, [], ◌∷◌, ◌++◌, if◌then◌else◌, Text, codes,
  text_eq, starts_with, any, is_empty, Result, ok, err, ◌>>=◌, ◌>>◌,
}
use agnoflow_engine.Types.Json.{
  Json, null, bool, number, string, array, object, Items, Fields, end, field,
}
use agnoflow_engine.Types.Errors.{
  Fallible, Violation, invalid_input, input_type_mismatch, ctx_type_mismatch,
}
use agnoflow_engine.Types.Wfd.{InputDef, ActionDef, Wfd}
use agnoflow_engine.Types.Host.{Host}
use agnoflow_engine.Effects.{get_path}
use agnoflow_engine.ContextTypes.{validate_input, validate_written}

abbrev Done : Type 0
Done = Unit {0}

abbrev given : Text → Option Json → Fallible Done
given path none = err (invalid_input (codes "zorunlu input '" ++ (path ++ codes "' eksik")))
given path (some null) =
    err (invalid_input (codes "zorunlu input '" ++ (path ++ codes "' null olamaz")))
given path (some v) = ok tt

pub check_required : List Text → Json → Fallible Done
check_required [] input = ok tt
check_required (path ∷ paths) input =
    given path (get_path input path) >>= λ _. check_required paths input

abbrev pub at_path : Text → Text → Text
at_path prefix k = if is_empty prefix then k else prefix ++ b'.' ∷ k

abbrev pub own_path : Text → List Text
own_path prefix = if is_empty prefix then [] else prefix ∷ []

-- a value that is no object with entries is a leaf
unfoldable mutual
  pub collect_leaf_paths : Json → Text → List Text
  collect_leaf_paths null prefix = own_path prefix
  collect_leaf_paths (bool b) prefix = own_path prefix
  collect_leaf_paths (number n) prefix = own_path prefix
  collect_leaf_paths (string s) prefix = own_path prefix
  collect_leaf_paths (array xs) prefix = own_path prefix
  collect_leaf_paths (object end) prefix = own_path prefix
  collect_leaf_paths (object (field k v m)) prefix = field_leaf_paths (field k v m) prefix

  pub field_leaf_paths : Fields → Text → List Text
  field_leaf_paths end prefix = []
  field_leaf_paths (field k v m) prefix =
      collect_leaf_paths v (at_path prefix k) ++ field_leaf_paths m prefix

-- the leaf is a declared path, lies below one, or above one
abbrev pub covers : Text → Text → Bool
covers leaf d =
    text_eq leaf d || (starts_with (d ++ codes ".") leaf || starts_with (leaf ++ codes ".") d)

pub check_leaves : List Text → List Text → Fallible Done
check_leaves declared [] = ok tt
check_leaves declared (leaf ∷ leaves) =
    if not (any (covers leaf) declared)
    then err
        (invalid_input (codes "input yolu '" ++ (leaf ++ codes "' bu action'da tanımlı değil")))
    else check_leaves declared leaves

abbrev pub declared_paths : ActionDef → List Text
declared_paths a = InputDef.required a.input ++ InputDef.optional a.input

abbrev pub no_violation : (List Violation → Fallible Done) → List Violation → Fallible Done
no_violation fail [] = ok tt
no_violation fail (v ∷ vs) = fail (v ∷ vs)

module _ (host : Host) where
  unfoldable pub validate_action_input : ActionDef → Json → Json → Fallible Done
  unfolding check_required check_leaves
  validate_action_input a input context = check_required (InputDef.required a.input) input >>= λ _.
      check_leaves (declared_paths a) (collect_leaf_paths input []) >>= λ _.
      no_violation (λ vs. err (input_type_mismatch vs))
        (validate_input host context (declared_paths a) input)

  unfoldable pub guard_written_ctx : Wfd → Json → Json → Fallible Done
  guard_written_ctx wfd before after =
      no_violation (λ vs. err (ctx_type_mismatch vs))
        (validate_written host wfd.context before after)
