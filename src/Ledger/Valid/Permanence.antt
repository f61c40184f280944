-- ===== src/Ledger/Valid/Permanence.antt =====
-- crates/wfe-core/src/v22/valid.rs: what the ledger's growth does to the rows that it has lost.

use agnoflow_engine.Prelude.{
  ℕ, ◌<◌, ◌≡◌, refl, sym, ◌∙◌, true, false, ◌&&◌, not, Option, some, [], ◌∷◌, ◌++◌, append-nil,
  Memᴰ, inl, inr, arith, ltb, Option-cases, Text, All, any, filter, filter-append, filter-none,
  rfind, rfind-append, rfind-mem, find_map-append, or_opt, is_some, any-take_while-append,
  any-append, opt_eq, text_eq,
}
use agnoflow_engine.Types.Wfah.{Wfah, WfahEntry}
use agnoflow_engine.Ledger.Kind.{is_action, parse_marker}
use agnoflow_engine.Ledger.Order.{Increasing, Increasing-before}
use agnoflow_engine.Ledger.Valid.{
  ValidRules, InvalidReason, opens, last_fork_seq, before_boundary, eliminated_by_round,
  eliminated_by_branch_marker, is_sent_back_collapse, is_collapsing_send_back, left_end, is_spared,
  takes_out, send_back_loop, eliminated_by_send_back, invalid_reason,
}

module _ (wfah more : Wfah) (grows : Increasing (wfah ++ more)) where
  boundary_grows :
      (entry : Text) (seq : ℕ)
      → before_boundary seq (last_fork_seq wfah entry) ≡ true
      → before_boundary seq (last_fork_seq (wfah ++ more) entry) ≡ true
  unfolding before_boundary last_fork_seq
  boundary_grows entry seq h = elim (Option-cases (rfind (opens entry) wfah)) [
    | inl e ↦ absurd (let h' = rw (e, before_boundary) at h in cc)
    | inr (f, e) ↦ elim (Option-cases (rfind (opens entry) more)) [
      | inl e' ↦ rw (rfind-append, e', e) (rw e at h)
      | inr (g, e') ↦
          let later : f.seq < g.seq =
            Increasing-before wfah more grows (rfind-mem (opens entry) wfah e).0
              (rfind-mem (opens entry) more e').0 in
          let old : ltb seq f.seq ≡ true = rw (e, before_boundary) at h in
          rw (rfind-append, e') (ground arith)
    ]
  ]

  round_stays :
      (row : WfahEntry)
      → eliminated_by_round wfah row ≡ true
      → eliminated_by_round (wfah ++ more) row ≡ true
  unfolding eliminated_by_round
  round_stays row h = elim (Option-cases row.branch_entry) [
    | inl e ↦ absurd (let h' = rw (e, eliminated_by_round) at h in cc)
    | inr (entry, e) ↦
        rw (e, eliminated_by_round)
          (boundary_grows entry row.seq (rw (e, eliminated_by_round) at h))
  ]

  branch_marker_stays :
      (row : WfahEntry)
      → is_some (eliminated_by_branch_marker wfah row) ≡ true
      → is_some (eliminated_by_branch_marker (wfah ++ more) row) ≡ true
  unfolding eliminated_by_branch_marker
  branch_marker_stays row h = elim (Option-cases row.branch_entry) [
    | inl e ↦ absurd (let h' = rw (e, eliminated_by_branch_marker) at h in cc)
    | inr (entry, e) ↦
        rw (e, eliminated_by_branch_marker, filter-append, find_map-append)
          (left_some _ _ (rw (e, eliminated_by_branch_marker) at h))
  ]
    where
      left_some : (a b : Option InvalidReason) → is_some a ≡ true → is_some (or_opt a b) ≡ true
      left_some a b k = ground arith

  collapsing_stays :
      (s : WfahEntry)
      → is_collapsing_send_back wfah s ≡ true
      → is_collapsing_send_back (wfah ++ more) s ≡ true
  unfolding is_collapsing_send_back
  collapsing_stays s h = rw filter-append (
      any-take_while-append is_sent_back_collapse
        (λ m. not (is_action (parse_marker (WfahEntry.action m)).kind))
        (filter (λ m. ltb s.seq (WfahEntry.seq m)) wfah)
        (filter (λ m. ltb s.seq (WfahEntry.seq m)) more) h)

  -- Rows behind the old ledger are no entries before one of its rows.
  left_end_stays :
      (s : WfahEntry) (target : Text)
      → Memᴰ s wfah
      → left_end (wfah ++ more) s target ≡ left_end wfah s target
  unfolding left_end
  left_end_stays s target m = rw (
    filter-append,
    filter-none _ more (behind more (λ f n. Increasing-before wfah more grows m n)),
    append-nil,
  )
    where
      behind :
          (fs : Wfah)
          → ((f : WfahEntry) → Memᴰ f fs → s.seq < f.seq)
          → All
              (λ r.
                (ltb (WfahEntry.seq r) s.seq && opt_eq text_eq (WfahEntry.to_node r) (some target))
                ≡ false)
              fs
      behind [] k = tt
      behind (f ∷ fs) k =
          (ground (arith, k f (Memᴰ.head refl)), behind fs (λ g n. k g (Memᴰ.tail n)))

  spared_shrinks :
      (s row : WfahEntry) → is_spared wfah s row ≡ false → is_spared (wfah ++ more) s row ≡ false
  unfolding is_spared
  spared_shrinks s row h = ground (arith, collapsing_stays s)

  takes_out_stays :
      (rules : ValidRules) (row s : WfahEntry)
      → Memᴰ s wfah
      → takes_out wfah rules row s ≡ true
      → takes_out (wfah ++ more) rules row s ≡ true
  unfolding takes_out
  takes_out_stays rules row s m h = elim (Option-cases s.to_node) [
    | inl e ↦ absurd (let h' = rw (e, takes_out) at h in ground arith)
    | inr (target, e) ↦
        let h' = rw (e, takes_out) at h in
        rw (e, takes_out, left_end_stays s target m) (ground (arith, spared_shrinks s row))
  ]

  any_stays :
      (rules : ValidRules) (row : WfahEntry) (ss : Wfah)
      → ((s : WfahEntry) → Memᴰ s ss → Memᴰ s wfah)
      → any (takes_out wfah rules row) ss ≡ true
      → any (takes_out (wfah ++ more) rules row) ss ≡ true
  any_stays rules row [] sub h = cc
  any_stays rules row (s ∷ ss) sub h = ground (
    arith,
    takes_out_stays rules row s (sub s (Memᴰ.head refl)),
    any_stays rules row ss (λ (t : WfahEntry) (m : Memᴰ t ss). sub t (Memᴰ.tail m)),
  )

send_back_loop-any :
    (wfah : Wfah) (rules : ValidRules) (row : WfahEntry) (ss : Wfah)
    → is_some (send_back_loop wfah rules row ss) ≡ any (takes_out wfah rules row) ss
unfolding send_back_loop
send_back_loop-any wfah rules row [] = refl
send_back_loop-any wfah rules row (s ∷ ss) = ground (arith, send_back_loop-any wfah rules row ss)

send_back_stays :
    (wfah more : Wfah) (rules : ValidRules) (row : WfahEntry)
    → Increasing (wfah ++ more)
    → is_some (eliminated_by_send_back wfah rules row) ≡ true
    → is_some (eliminated_by_send_back (wfah ++ more) rules row) ≡ true
unfolding eliminated_by_send_back
send_back_stays wfah more rules row grows h =
    let old : any (takes_out wfah rules row) wfah ≡ true =
      sym (send_back_loop-any wfah rules row wfah) ∙ h in
    send_back_loop-any (wfah ++ more) rules row (wfah ++ more)
    ∙ any-append (takes_out (wfah ++ more) rules row) wfah more
    ∙ ground (
      arith,
      any_stays wfah more grows rules row wfah (λ (s : WfahEntry) (m : Memᴰ s wfah). m) old,
    )

-- A row that has lost its force does not get it back: whatever rows are appended to a ledger
-- whose sequence numbers grow, an invalid row stays invalid.
pub invalid_reason_permanent :
    (wfah more : Wfah) (rules : ValidRules) (row : WfahEntry)
    → Increasing (wfah ++ more)
    → is_some (invalid_reason wfah rules row) ≡ true
    → is_some (invalid_reason (wfah ++ more) rules row) ≡ true
unfolding invalid_reason
invalid_reason_permanent wfah more rules row grows h = ground (
  arith,
  round_stays wfah more grows row,
  branch_marker_stays wfah more grows row,
  send_back_stays wfah more rules row grows,
)
