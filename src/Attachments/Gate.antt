-- ===== src/Attachments/Gate.antt =====
-- crates/wfe-core/src/v22/attachments.rs: what an accepted upload fits, and which slots close an action.
use agnoflow_engine.Prelude.{
  ℕ, ◌≤◌, ◌≡◌, refl, Bool, true, inl, inr, Option, none, some, List, [], ◌∷◌, Memᴰ, find, find-mem,
  filter, filter-mem, map, is_empty, leb, trim, unwrap_or, Text, Bool-cases, Option-cases, arith,
  ok,
}
use agnoflow_engine.Types.Attachments.{AttachmentFormatRule, AttachmentItem}
use agnoflow_engine.Attachments.{
  accepts, within, check_upload, GateSlot, slot_key, is_missing, missing_required,
}

-- the limit of a rule, if it has one
abbrev pub Within : (Text → ℕ) → Option Text → ℕ → Type 0
Within max_bytes none len = Unit
Within max_bytes (some mb) len = len ≤ max_bytes mb

-- Uploads that a slot takes: any, where it has no rule, and else one whose type a rule accepts and
-- whose size is within the rule's limit.
pub data Taken (max_bytes : Text → ℕ) (item : AttachmentItem) (ct : Text) (len : ℕ) : Type 0 where
  any_upload : is_empty item.formats ≡ true → Taken max_bytes item ct len
  by_rule :
      {r : AttachmentFormatRule}
      → Memᴰ r item.formats
      → accepts ct r ≡ true
      → Within max_bytes r.max_size_mb len
      → Taken max_bytes item ct len

within_sound :
    (max_bytes : Text → ℕ) (limit : Option Text) (len : ℕ)
    → within max_bytes limit len ≡ ok tt
    → Within max_bytes limit len
within_sound max_bytes none len h = tt
within_sound max_bytes (some mb) len h = elim (Bool-cases (leb len (max_bytes mb))) [
  | inl t ↦ ground arith
  | inr f ↦ absurd (let h' = rw f at h in cc)
]

-- An upload that passes the check is one that its slot takes.
pub check_upload_sound :
    (max_bytes : Text → ℕ) (item : AttachmentItem) (content_type : Option Text) (len : ℕ)
    → check_upload max_bytes item content_type len ≡ ok tt
    → Taken max_bytes item (trim (unwrap_or content_type [])) len
unfolding check_upload
check_upload_sound max_bytes item content_type len h =
    let ct = trim (unwrap_or content_type []) in
    elim (Bool-cases (is_empty item.formats)) [
      | inl t ↦ any_upload t
      | inr f ↦ elim (Option-cases (find (accepts ct) item.formats)) [
        | inl e ↦ absurd (let h' = rw (f, e, check_upload) at h in cc)
        | inr (r, e) ↦
            let (m, a) = find-mem (accepts ct) item.formats e in
            by_rule m a (within_sound max_bytes r.max_size_mb len (rw (f, e, check_upload) at h))
      ]
    ]

map-nil : {A B : Type 0} (f : A → B) (xs : List A) → is_empty (map f xs) ≡ true → xs ≡ []
map-nil f [] h = refl
map-nil f (x ∷ xs) h = cc

-- where nothing is missing, a required slot that closes the action is uploaded
pub missing_required-nil :
    (slots : List GateSlot) (uploaded : Text → Text → Bool) {g : GateSlot}
    → is_empty (missing_required slots uploaded) ≡ true
    → Memᴰ g slots
    → g.gates ≡ true
    → g.required ≡ true
    → uploaded g.group g.item ≡ true
unfolding missing_required
missing_required-nil slots uploaded {g} h m gates required =
    elim (Bool-cases (uploaded g.group g.item)) [
      | inl t ↦ t
      | inr f ↦
          let missing : is_missing uploaded g ≡ true = rw (gates, required, f) refl in
          let none_left =
            map-nil (λ s. slot_key (GateSlot.group s) (GateSlot.item s))
              (filter (is_missing uploaded) slots) h in
          let k = filter-mem (is_missing uploaded) slots m missing in elim (rw none_left at k) [ ]
    ]
