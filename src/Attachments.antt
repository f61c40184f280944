-- ===== src/Attachments.antt =====
-- crates/wfe-core/src/v22/attachments.rs: which uploads a slot accepts, and which slots close an
-- action. The number of bytes of a limit in megabytes, a product of `f64` that is cut to a `usize`, is
-- an argument.
pub mod Gate
use agnoflow_engine.Prelude.{
  ℕ, Bool, true, false, ◌&&◌, ◌||◌, not, Option, none, some, List, [], ◌∷◌, ◌++◌, leb, any, find,
  filter, map, head?, opt_eq, is_empty, unwrap_or, and_then, if◌then◌else◌, Text, codes, text_eq,
  strip_suffix, split, trim, lookup, Result, ok, err,
}
use agnoflow_engine.Types.Attachments.{
  AttachmentFormatRule, AttachmentItem, AttachmentGroup, AttachmentRef, group_of, gates_action,
}
use agnoflow_engine.Types.Wfd.{NodeDef, Wfd}

abbrev type_matches : Option Text → Text → Bool
type_matches none ct = false
type_matches (some prefix) ct = opt_eq text_eq (head? (split 47 ct)) (some prefix)

unfoldable pub mime_matches : Text → Text → Bool
mime_matches pattern ct =
    if text_eq pattern ct || text_eq pattern (codes "*/*")
    then true
    else type_matches (strip_suffix (codes "/*") pattern) ct

pub data UploadReject : Type 0 where
  unsupported_type too_large : Text → UploadReject
  -- declared and detected
  type_mismatch : Text → Text → UploadReject

abbrev pub accepts : Text → AttachmentFormatRule → Bool
accepts ct r = any (λ a. mime_matches a ct) r.accept

abbrev shown_type : Text → Text
shown_type ct = if is_empty ct then codes "(içerik tipi yok)" else ct

module _ (max_bytes : Text → ℕ) where
  abbrev pub within : Option Text → ℕ → Result UploadReject (Unit {0})
  within none len = ok tt
  within (some mb) len = if leb len (max_bytes mb) then ok tt else err (UploadReject.too_large mb)

  unfoldable pub check_upload : AttachmentItem → Option Text → ℕ → Result UploadReject (Unit {0})
  check_upload item content_type len =
      let ct = trim (unwrap_or content_type []) in
      if is_empty item.formats then ok tt else elim (find (accepts ct) item.formats) [
        | none ↦ err (UploadReject.unsupported_type (shown_type ct))
        | some r ↦ within r.max_size_mb len
      ]

abbrev add_new : Text → List Text → List Text
add_new a out = if any (λ x. text_eq x a) out then out else out ++ a ∷ []

pub add_all : List Text → List Text → List Text
add_all [] out = out
add_all (a ∷ more) out = add_all more (add_new a out)

pub all_accept_patterns_from : List AttachmentFormatRule → List Text → List Text
unfolding add_all
all_accept_patterns_from [] out = out
all_accept_patterns_from (r ∷ rs) out = all_accept_patterns_from rs (add_all r.accept out)

unfoldable pub all_accept_patterns : AttachmentItem → List Text
unfolding all_accept_patterns_from
all_accept_patterns item = all_accept_patterns_from item.formats []

pub record GateSlot : Type 0 where
  pub group : Text
  pub item : Text
  pub label : Option Text
  pub required : Bool
  pub gates : Bool
  pub formats : List AttachmentFormatRule

-- `GateSlot::key`
abbrev pub slot_key : Text → Text → Text
slot_key group item = group ++ (codes "/" ++ item)

abbrev pub slot_of : Text → Bool → AttachmentItem → GateSlot
slot_of group gates item = record {
  group = group;
  item = item.id;
  label = item.label;
  required = item.required;
  gates = gates;
  formats = item.formats;
}

abbrev slots_of_group : Text → Bool → Option AttachmentGroup → List GateSlot
slots_of_group group gates none = []
slots_of_group group gates (some g) = map (slot_of group gates) g.items

pub slots_of_refs : Wfd → Option Text → List AttachmentRef → List GateSlot
slots_of_refs wfd action [] = []
slots_of_refs wfd action (r ∷ rs) =
    slots_of_group (group_of r) (gates_action r action) (lookup (group_of r) wfd.attachments)
    ++ slots_of_refs wfd action rs

unfoldable pub gate_slots : Wfd → Text → Option Text → List GateSlot
unfolding slots_of_refs
gate_slots wfd node_key action = elim (lookup node_key wfd.nodes) [
  | none ↦ []
  | some node ↦ slots_of_refs wfd action (NodeDef.attachments node)
]

unfoldable pub find_item : Wfd → Text → Text → Option AttachmentItem
find_item wfd group item =
    and_then (lookup group wfd.attachments)
      λ g. find (λ i. text_eq (AttachmentItem.id i) item) (AttachmentGroup.items g)

abbrev pub is_missing : (Text → Text → Bool) → GateSlot → Bool
is_missing uploaded s = s.gates && (s.required && not (uploaded s.group s.item))

unfoldable pub missing_required : List GateSlot → (Text → Text → Bool) → List Text
missing_required slots uploaded =
    map (λ s. slot_key (GateSlot.group s) (GateSlot.item s)) (filter (is_missing uploaded) slots)
