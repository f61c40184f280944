-- ===== src/Ledger/Valid/Markers.antt =====
-- crates/wfe-core/src/v22/valid.rs: what a row that drops a branch does to the branch's earlier rows.
use agnoflow_engine.Prelude.{
  ◌<◌, ◌≡◌, true, ◌&&◌, Option, some, List, [], ◌∷◌, Memᴰ, Text, text_eq, text_eq_refl, opt_eq, ltb,
  is_some, filter, filter-mem, find_map, arith,
}
use agnoflow_engine.Types.Wfah.{Wfah, WfahEntry}
use agnoflow_engine.Ledger.Valid.{
  ValidRules, branch_marker_reason, eliminated_by_branch_marker, invalid_reason,
}

find_map-mem :
    {A B : Type 0} {x : A} (f : A → Option B) (xs : List A)
    → Memᴰ x xs
    → is_some (f x) ≡ true
    → is_some (find_map f xs) ≡ true
find_map-mem f [] m h = elim m [ ]
find_map-mem f (y ∷ ys) (Memᴰ.head e) h = ground arith
find_map-mem f (y ∷ ys) (Memᴰ.tail m) h = ground (arith, find_map-mem f ys m h)

-- the row drops a branch
abbrev pub IsDrop : WfahEntry → Type 0
IsDrop m = is_some (branch_marker_reason m.action) ≡ true

pub invalid_reason-dropped :
    (wfah : Wfah) (rules : ValidRules) (row m : WfahEntry) (entry : Text)
    → Memᴰ m wfah
    → row.branch_entry ≡ some entry
    → m.branch_entry ≡ some entry
    → row.seq < m.seq
    → IsDrop m
    → is_some (invalid_reason wfah rules row) ≡ true
unfolding invalid_reason eliminated_by_branch_marker
invalid_reason-dropped wfah rules row m entry i r b lt d =
    let later = (λ (x : WfahEntry).
      opt_eq text_eq (WfahEntry.branch_entry x) (some entry) && ltb row.seq (WfahEntry.seq x)) in
    let passes : later m ≡ true = rw (b, text_eq_refl entry) (ground arith) in
    let dropped : is_some (eliminated_by_branch_marker wfah row) ≡ true =
      rw (r, eliminated_by_branch_marker)
        (find_map-mem (λ x. branch_marker_reason (WfahEntry.action x)) (filter later wfah)
          (filter-mem later wfah i passes) d) in
    ground arith
