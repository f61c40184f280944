-- ===== src/Pipeline/Rows/Sequence.antt =====
-- crates/wfe-core/src/v22/pipeline.rs: rows that are numbered one after another, as `seq += 1` does.
use agnoflow_engine.Prelude.{
  ℕ, ◌+◌, ◌^◌, ◌≤◌, ◌<◌, ◌≡◌, All, All-map, All-mem, All-snoc, Option-cases, inl, inr, last?,
  last?-none, last?-mem, refl, List, [], ◌∷◌, ◌++◌, length, arith, subst, append_assoc, append-nil,
}
use agnoflow_engine.Types.Wfah.{Wfah, WfahEntry, u32}
use agnoflow_engine.Ledger.Order.{Increasing, Increasing-snoc, last-max}
use agnoflow_engine.Pipeline.Rows.{seq_after, next_seq}

abbrev pub Numbered : ℕ → List WfahEntry → Type 0
Numbered n [] = Unit
Numbered n (e ∷ es) = (e.seq ≡ n) × Numbered (u32 (n + 1)) es

pub seq_after-append :
    (n : ℕ) (xs ys : List WfahEntry) → seq_after n (xs ++ ys) ≡ seq_after (seq_after n xs) ys
seq_after-append n [] ys = refl
seq_after-append n (x ∷ xs) ys = seq_after-append (u32 (n + 1)) xs ys

pub Numbered-append :
    (n : ℕ) (xs ys : List WfahEntry)
    → Numbered n xs
    → Numbered (seq_after n xs) ys
    → Numbered n (xs ++ ys)
Numbered-append n [] ys h k = k
Numbered-append n (x ∷ xs) ys h k = (h.0, Numbered-append (u32 (n + 1)) xs ys h.1 k)

-- rows from `n` on go behind a growing ledger whose numbers stay under `n`
Increasing-from :
    (w : Wfah) (n : ℕ) (rows : List WfahEntry)
    → Numbered n rows
    → Increasing w
    → All (λ e. WfahEntry.seq e < n) w
    → n + length rows < 2 ^ 32
    → Increasing (w ++ rows)
Increasing-from w n [] num inc below bound = rw (append-nil w) inc
Increasing-from w n (row ∷ rows) num inc below bound =
    let wraps : u32 (n + 1) ≡ n + 1 = omega arith in
    let ih =
      Increasing-from (w ++ row ∷ []) (n + 1) rows (rw wraps at num.1)
        (Increasing-snoc w row inc (rw num.0 below))
        (All-snoc (λ e. WfahEntry.seq e < n + 1) w row
          (All-map (λ e. WfahEntry.seq e < n) (λ e. WfahEntry.seq e < n + 1) w (λ e lt. omega arith)
            below)
          (rw num.0 (omega arith)))
        (omega arith) in
    subst Increasing (append_assoc w (row ∷ []) rows) ih

-- numbered rows go behind a growing ledger, as long as their numbers fit into 32 bits
pub Increasing-Numbered :
    (w : Wfah) (rows : List WfahEntry)
    → Numbered (next_seq w) rows
    → Increasing w
    → All (λ e. WfahEntry.seq e + 1 + length rows < 2 ^ 32) w
    → 1 + length rows < 2 ^ 32
    → Increasing (w ++ rows)
unfolding next_seq
Increasing-Numbered w rows num inc bound short = elim (Option-cases (last? w)) [
  | inl e ↦
      Increasing-from w (next_seq w) rows num inc (rw (last?-none w e) tt)
        (rw (e, next_seq) (omega arith))
  | inr (x, e) ↦
      let top = All-mem (λ e. WfahEntry.seq e + 1 + length rows < 2 ^ 32) w bound (last?-mem w e) in
      let next : next_seq w ≡ WfahEntry.seq x + 1 = rw (e, next_seq) (omega arith) in
      Increasing-from w (next_seq w) rows num inc
        (rw next (
          All-map (λ y. WfahEntry.seq y ≤ WfahEntry.seq x)
            (λ y. WfahEntry.seq y < WfahEntry.seq x + 1) w (λ y le. omega arith)
            (last-max w x inc e)))
        (rw next (omega arith))
]
