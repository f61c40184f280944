-- ===== src/EndTerminal/Certain.antt =====
-- crates/wfe-core/src/v22/end_terminal.rs: the contract of its header, that it never guesses.
use agnoflow_engine.Prelude.{
  ◌≡◌, ◌⊎◌, ap, true, Option, none, some, List, [], ◌∷◌, Memᴰ, Memᴰ-cases, inl, inr, Bool-cases,
  Text, text_eq, text_eq_sound, text_eq_refl, any, any-mem, mem-any, filter, filter-mem, is_empty,
}
use agnoflow_engine.Types.Json.{Json}
use agnoflow_engine.Types.Wfd.{Terminal, Wfd}
use agnoflow_engine.EndTerminal.{
  certain, LastAction, response_matches, reachable_terminals, distinct, ids, by_response, by_reach,
  survivors, guess_among, infer_end_terminal,
}

mem-distinct : {x : Text} (xs : List Text) → Memᴰ x xs → Memᴰ x (distinct xs)
mem-distinct [] m = elim m [ ]
mem-distinct {x} (y ∷ xs) m = elim (Bool-cases (any (text_eq y) xs)) [
  | inl t ↦ elim (Memᴰ-cases m) [
    | inl e ↦
        let (z, n, q) = any-mem (text_eq y) xs t in
        rw t (mem-distinct xs (rw (e, text_eq_sound y z q) n))
    | inr n ↦ rw t (mem-distinct xs n)
  ]
  | inr f ↦ elim (Memᴰ-cases m) [
    | inl e ↦ rw f (Memᴰ.head e)
    | inr n ↦ rw f (Memᴰ.tail (mem-distinct xs n))
  ]
]

mem-ids : {t : Terminal} (ts : List Terminal) → Memᴰ t ts → Memᴰ t.id (ids ts)
mem-ids [] m = elim m [ ]
mem-ids {t} (u ∷ ts) m = elim (Memᴰ-cases m) [
  | inl e ↦ Memᴰ.head (ap Terminal.id e)
  | inr n ↦ Memᴰ.tail (mem-ids ts n)
]

only_one :
    {t s : Text} (every left : List Text)
    → guess_among every left ≡ certain t
    → Memᴰ s every
    → Memᴰ s left
    → s ≡ t
only_one [] left h m n = elim m [ ]
only_one (x ∷ []) left h m n = elim (Memᴰ-cases m) [ inl e ↦ cc | inr k ↦ elim k [ ] ]
only_one (x ∷ y ∷ every) [] h m n = elim n [ ]
only_one (x ∷ y ∷ every) (u ∷ []) h m n = elim (Memᴰ-cases n) [ inl e ↦ cc | inr k ↦ elim k [ ] ]
only_one (x ∷ y ∷ every) (u ∷ v ∷ left) h m n = absurd (cc)

-- The recorded response, if there is one, can be that of a terminal with this id.
abbrev pub FitsResponse : Wfd → Option Json → Text → Type 0
FitsResponse wfd none s = Unit
FitsResponse wfd (some response) s =
    (t : Terminal) × Memᴰ t wfd.terminals
    × (t.id ≡ s)
    × (response_matches t.wfe_end_response response ≡ true)

-- The last action, if it is known and reaches any terminal, reaches this one.
abbrev pub FitsAction : Wfd → Option LastAction → Text → Type 0
FitsAction wfd none s = Unit
FitsAction wfd (some last) s =
    (is_empty (reachable_terminals wfd last) ≡ true) ⊎ Memᴰ s (reachable_terminals wfd last)

in_response :
    (wfd : Wfd) (response : Option Json) (s : Text)
    → Memᴰ s (ids wfd.terminals)
    → FitsResponse wfd response s
    → Memᴰ s (by_response wfd response)
unfolding by_response
in_response wfd none s m fits = mem-distinct (ids wfd.terminals) m
in_response wfd (some r) s m (t, n, e, h) = rw (← e) (
    mem-distinct
      (ids (filter (λ t. response_matches (Terminal.wfe_end_response t) r) wfd.terminals))
      (mem-ids (filter (λ t. response_matches (Terminal.wfe_end_response t) r) wfd.terminals)
        (filter-mem (λ t. response_matches (Terminal.wfe_end_response t) r) wfd.terminals n h)))

in_reach :
    (wfd : Wfd) (last : Option LastAction) (s : Text)
    → Memᴰ s (ids wfd.terminals)
    → FitsAction wfd last s
    → Memᴰ s (by_reach wfd last)
unfolding by_reach
in_reach wfd none s m fits = mem-distinct (ids wfd.terminals) m
in_reach wfd (some l) s m fits = elim (Bool-cases (is_empty (reachable_terminals wfd l))) [
  | inl t ↦ rw (t, by_reach) (mem-distinct (ids wfd.terminals) m)
  | inr f ↦ elim fits [ inl t ↦ absurd (cc) | inr n ↦ rw (f, by_reach) n ]
]

-- A certain answer is the only one that the evidence allows: every terminal of the document whose
-- response can be the recorded one, and which the last action reaches, is the one named.
pub infer_end_terminal_sound :
    (wfd : Wfd) (response : Option Json) (last : Option LastAction) (t : Text)
    → infer_end_terminal wfd response last ≡ certain t
    → (s : Text) → Memᴰ s (ids wfd.terminals)
    → FitsResponse wfd response s
    → FitsAction wfd last s
    → s ≡ t
unfolding infer_end_terminal
infer_end_terminal_sound wfd response last t h s m r a =
    only_one (distinct (ids wfd.terminals)) (survivors wfd response last) h
      (mem-distinct (ids wfd.terminals) m)
      (filter-mem (λ u. any (text_eq u) (by_reach wfd last)) (by_response wfd response)
        (in_response wfd response s m r)
        (mem-any (text_eq s) (by_reach wfd last) (in_reach wfd last s m a) (text_eq_refl s)))
