-- ===== src/Ledger/Order.antt =====
-- The order of the ledger (crates/wfe-core/src/types/wfah.rs): sequence numbers that grow.

use agnoflow_engine.Prelude.{
  suc, ◌+◌, ◌^◌, ◌≤◌, ◌<◌, ◌≡◌, refl, Option, some, [], ◌∷◌, ◌++◌, Memᴰ, arith, Text, All, All-mem,
  All-append, All-map, Option-cases, last?-none, last?-mem, inl, inr, ◌%◌, last?,
}
use agnoflow_engine.Types.Json.{Json}
use agnoflow_engine.Types.Actor.{Actor, Instant}
use agnoflow_engine.Types.Wfah.{Wfah, WfahEntry, push}

abbrev pub Increasing : Wfah → Type 0
Increasing [] = Unit
Increasing (e ∷ es) = All (λ x. e.seq < WfahEntry.seq x) es × Increasing es

-- Every row of the front stands before every row of the back.
pub Increasing-before :
    {e f : WfahEntry} (front back : Wfah)
    → Increasing (front ++ back)
    → Memᴰ e front
    → Memᴰ f back
    → e.seq < f.seq
Increasing-before [] back h m n = elim m [ ]
Increasing-before (x ∷ front) back h (Memᴰ.head p) n = rw p (
    All-mem (λ y. x.seq < WfahEntry.seq y) back
      (All-append (λ y. x.seq < WfahEntry.seq y) front back h.0).1 n)
Increasing-before (x ∷ front) back h (Memᴰ.tail m) n = Increasing-before front back h.1 m n

-- A row whose number is past the last one's goes behind a growing ledger.
pub Increasing-snoc :
    (w : Wfah) (e : WfahEntry)
    → Increasing w
    → All (λ x. WfahEntry.seq x < e.seq) w
    → Increasing (w ++ e ∷ [])
Increasing-snoc [] e h b = (tt, tt)
Increasing-snoc (x ∷ w) e h b = (widen w h.0, Increasing-snoc w e h.1 b.1)
  where
    widen :
        (v : Wfah)
        → All (λ y. x.seq < WfahEntry.seq y) v
        → All (λ y. x.seq < WfahEntry.seq y) (v ++ e ∷ [])
    widen [] k = (b.0, tt)
    widen (y ∷ v) k = (k.0, widen v k.1)

-- no row is past the last one
pub last-max :
    (w : Wfah) (e : WfahEntry)
    → Increasing w
    → last? w ≡ some e
    → All (λ x. WfahEntry.seq x ≤ e.seq) w
last-max [] e h l = absurd (cc)
last-max (x ∷ []) e h l = (ground arith, tt)
last-max (x ∷ y ∷ w) e h l =
    let rest : All (λ x. WfahEntry.seq x ≤ e.seq) (y ∷ w) =
      last-max (y ∷ w) e h.1 (last_tail (last? w) refl l) in
    (omega (arith, h.0.0, rest.0), rest)
  where
    last_tail :
        (o : Option WfahEntry) → last? w ≡ o → last? (x ∷ y ∷ w) ≡ some e → last? (y ∷ w) ≡ some e
    last_tail o p q = ground arith

-- Appending a row to a ledger whose sequence numbers grow keeps them growing, as long as the
-- successor of each number fits into 32 bits.
pub push-Increasing :
    (w : Wfah) (action : Text) (actor : Actor) (input : Option Json) (now : Instant)
    → Increasing w
    → All (λ e. suc (WfahEntry.seq e) < 2 ^ 32) w
    → Increasing (push w action actor input now)
unfolding push
push-Increasing w action actor input now h b = elim (Option-cases (last? w)) [
  | inl e ↦ rw (last?-none w e) (tt, tt)
  | inr (x, e) ↦
      let bound = All-mem (λ y. suc (WfahEntry.seq y) < 2 ^ 32) w b (last?-mem w e) in
      Increasing-snoc w _ h (
        rw e (
          All-map (λ y. WfahEntry.seq y ≤ x.seq) (λ y. WfahEntry.seq y < (x.seq + 1) % 2 ^ 32) w
            (λ y le. omega arith) (last-max w x h e)))
]
