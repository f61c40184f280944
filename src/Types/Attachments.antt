-- ===== src/Types/Attachments.antt =====
-- crates/wfe-core/src/types/wfd_v22.rs: the catalogue of attachments, and a node's references to it.
use agnoflow_engine.Prelude.{Bool, true, Option, none, some, List, Text, text_eq, any}

pub record AttachmentFormatRule : Type 0 where
  pub accept : List Text
  -- the literal of an `f64`
  pub max_size_mb : Option Text

pub record AttachmentItem : Type 0 where
  pub id : Text
  pub label : Option Text
  pub required : Bool
  pub formats : List AttachmentFormatRule

pub record AttachmentGroup : Type 0 where
  pub items : List AttachmentItem

pub record ScopedAttachmentRef : Type 0 where
  pub group : Text
  pub actions : Option (List Text)

pub data AttachmentRef : Type 0 where
  group : Text → AttachmentRef
  scoped : ScopedAttachmentRef → AttachmentRef

-- `AttachmentRef::group`, `actions` and `gates_action`
abbrev pub group_of : AttachmentRef → Text
group_of (AttachmentRef.group g) = g
group_of (AttachmentRef.scoped s) = s.group

abbrev pub actions_of : AttachmentRef → Option (List Text)
actions_of (AttachmentRef.group g) = none
actions_of (AttachmentRef.scoped s) = s.actions

abbrev covers_action : Option (List Text) → Option Text → Bool
covers_action none action = true
covers_action (some list) none = true
covers_action (some list) (some a) = any (λ x. text_eq x a) list

abbrev pub gates_action : AttachmentRef → Option Text → Bool
gates_action ref action = covers_action (actions_of ref) action
