-- ===== src/Ledger/Valid/Rounds.antt =====
-- crates/wfe-core/src/v22/valid.rs: the rounds of a parallel branch.
use agnoflow_engine.Prelude.{
  suc, ◌≤◌, ◌<◌, ◌≡◌, ◌↔◌, Bool, true, ◌&&◌, none, some, [], ◌∷◌, ◌++◌, Memᴰ, inl, inr, arith,
  if◌then◌else◌, Bool-cases, Option-cases, Text, text_eq, All-mem, filter-append, rfind, rfind-mem,
  Memᴰ-cases, text_eq_sound, text_eq_iff, length-append,
}
use agnoflow_engine.Types.Wfah.{Wfah, WfahEntry, u32}
use agnoflow_engine.Ledger.Order.{Increasing}
use agnoflow_engine.Ledger.Valid.{
  fork_action, fork_opens, opens, round_of, last_fork_seq, before_boundary, eliminated_by_round,
}

module _ (p : WfahEntry → Bool) where
  rfind-none : {f : WfahEntry} (w : Wfah) → rfind p w ≡ none → Memᴰ f w → p f ≡ true → ⊥
  rfind-none [] h m t = elim m [ ]
  rfind-none (x ∷ w) h (Memᴰ.head e) t = ground arith
  rfind-none (x ∷ w) h (Memᴰ.tail m) t = rfind-none w (ground arith) m t

  -- The one that is found last has the greatest number of those that pass.
  rfind-last :
      (w : Wfah) {f g : WfahEntry}
      → Increasing w
      → rfind p w ≡ some g
      → Memᴰ f w
      → p f ≡ true
      → f.seq ≤ g.seq
  rfind-last [] h e m t = elim m [ ]
  rfind-last (x ∷ w) {f} {g} h e m t = elim (Option-cases (rfind p w)) [
    | inl n ↦ elim (Memᴰ-cases m) [
      | inl q ↦
          let px : p x ≡ true = rw (← q) t in
          let same : g ≡ x = ground arith in rw (same, q) (omega arith)
      | inr k ↦ absurd (rfind-none w n k t)
    ]
    | inr (y, n) ↦
        let same : g ≡ y = ground arith in
        elim (Memᴰ-cases m) [
          | inl q ↦
              let le = All-mem (λ z. x.seq < WfahEntry.seq z) w h.0 (rfind-mem p w n).0 in
              rw (same, q) (omega arith)
          | inr k ↦ rw same (rfind-last w h.1 n k t)
        ]
  ]

opens_of :
    (f : WfahEntry) (entry : Text)
    → f.action ≡ fork_action
    → fork_opens f entry ≡ true
    → opens entry f ≡ true
unfolding opens
opens_of f entry fork t = ground (arith, text_eq_iff f.action fork_action)

round_at :
    (wfah : Wfah) (row : WfahEntry) (entry : Text)
    → row.branch_entry ≡ some entry
    → eliminated_by_round wfah row ≡ before_boundary row.seq (last_fork_seq wfah entry)
unfolding eliminated_by_round
round_at wfah row entry e = rw (e, eliminated_by_round)

-- In a ledger whose sequence numbers grow, a row that belongs to a branch is left in an old round
-- exactly when a later row of the ledger opens its branch again.
pub eliminated_by_round_iff :
    (wfah : Wfah) (row : WfahEntry) (entry : Text)
    → Increasing wfah
    → row.branch_entry ≡ some entry
    → (eliminated_by_round wfah row ≡ true) ↔ (
        (f : WfahEntry) × Memᴰ f wfah
        × (f.action ≡ fork_action)
        × (fork_opens f entry ≡ true)
        × (row.seq < f.seq))
unfolding last_fork_seq before_boundary opens
eliminated_by_round_iff wfah row entry grows e = rw (round_at wfah row entry e) (
  λ h. elim (Option-cases (rfind (opens entry) wfah)) [
    | inl n ↦ absurd (let h' = rw (n, last_fork_seq, before_boundary) at h in cc)
    | inr (f, n) ↦
        let (m, t) = rfind-mem (opens entry) wfah n in
        let lt = rw (n, last_fork_seq, before_boundary) at h in
        (f, m, text_eq_sound f.action fork_action (ground arith), ground arith, ground arith)
  ],
  λ (f, m, fork, t, lt).
      let passes : opens entry f ≡ true = opens_of f entry fork t in
      elim (Option-cases (rfind (opens entry) wfah)) [
        | inl n ↦ absurd (rfind-none (opens entry) wfah n m passes)
        | inr (g, n) ↦
            let le = rfind-last (opens entry) wfah grows n m passes in
            rw (n, last_fork_seq, before_boundary) (ground arith)
      ],
)

-- A fork that opens the branch begins its next round; no other row changes the round.
pub round_of-snoc :
    (wfah : Wfah) (e : WfahEntry) (entry : Text)
    → round_of (wfah ++ e ∷ []) entry ≡ (
        if text_eq e.action fork_action && fork_opens e entry
        then u32 (suc (round_of wfah entry))
        else round_of wfah entry)
unfolding round_of
round_of-snoc wfah e entry = elim (Bool-cases (opens entry e)) [
  | inl t ↦ rw (filter-append, length-append, t) (ground arith)
  | inr f ↦ rw (filter-append, length-append, f) (ground arith)
]
