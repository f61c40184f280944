-- ===== src/Duration/Grammar.antt =====
-- crates/wfe-core/src/v22/duration.rs against a grammar: which texts `parse_iso8601_duration`
-- accepts, and the number of seconds that it makes of them.
use agnoflow_engine.Prelude.{
  ℕ, ◌+◌, ◌*◌, ◌^◌, ◌≤◌, ◌<◌, ◌≡◌, ◌≢◌, refl, ap, Bool-cases, Option-cases, true, false, none, some,
  if◌then◌else◌, List, [], ◌∷◌, ◌++◌, append-nil, append_assoc, inl, inr, arith, leb, Text, Free,
  All, All-append, is_empty, ok, err, subst, ◌∙◌, strip_prefix, strip_prefix-eq, split_once,
  split_once-Free, split_once-append, split_once-eq, ◌>>=◌, >>=-eq-ok, ℤ, pos, ◌+ℤ◌, i64, i64-small,
  is_within,
}
use agnoflow_engine.Duration.{
  overflow, is_ascii_digit, parse_i64, unit_secs, max_seconds, seconds_of, add_seconds,
  parse_segments, date_units, time_units, parse_parts, parse_rest, parse_iso8601_duration,
}

abbrev Digits : Text → Type 0
Digits = All (λ c. is_ascii_digit c ≡ true)

-- A text of segments: a number, then a unit that is no digit; and the seconds of each.
pub data Segments (units : List (ℕ × ℕ)) : Text → List ℕ → Type 0 where
  empty : Segments units [] []
  segment :
      {rest : Text} {ks : List ℕ} (digits : Text) (u n secs : ℕ)
      → Digits digits
      → parse_i64 digits ≡ some n
      → is_ascii_digit u ≡ false
      → unit_secs units u ≡ some secs
      → Segments units rest ks
      → Segments units (digits ++ u ∷ rest) (n * secs ∷ ks)

-- the seconds in total
pub sum : List ℕ → ℕ
sum [] = 0
sum (k ∷ ks) = k + sum ks

-- The total that 64 bits keep of each: from a running total on.
pub sum_i64 : ℤ → List ℕ → ℤ
sum_i64 total [] = total
sum_i64 total (k ∷ ks) = sum_i64 (total +ℤ i64 k) ks

sum-append : (ks ms : List ℕ) → sum (ks ++ ms) ≡ sum ks + sum ms
unfolding sum
sum-append [] ms = omega arith
sum-append (k ∷ ks) ms = omega (arith, sum-append ks ms)

sum_i64-append :
    (total : ℤ) (ks ms : List ℕ) → sum_i64 total (ks ++ ms) ≡ sum_i64 (sum_i64 total ks) ms
unfolding sum_i64
sum_i64-append total [] ms = refl
sum_i64-append total (k ∷ ks) ms = sum_i64-append (total +ℤ i64 k) ks ms

seconds_sound : (n : ℤ) {m : ℤ} → seconds_of n ≡ ok m → n ≡ m
unfolding seconds_of
seconds_sound n h = elim (Bool-cases (is_within max_seconds n)) [
  | inl t ↦ let h' = rw t at h in cc
  | inr f ↦ absurd (let h' = rw f at h in cc)
]

add_sound :
    (total : ℤ) (product : ℕ) {m : ℤ} → add_seconds total product ≡ ok m → m ≡ total +ℤ i64 product
unfolding add_seconds
add_sound total product {m} h =
    let (d, e, k) = >>=-eq-ok (seconds_of (i64 product)) _ h in
    rw (seconds_sound (i64 product) e, seconds_sound (total +ℤ d) k) refl

-- sums of products that fit: past the limit in the product or in the total
add_fits :
    (total product : ℕ)
    → product < 2 ^ 63
    → add_seconds (pos total) product
      ≡ (if leb (total + product) max_seconds then ok (pos (total + product)) else err overflow)
unfolding add_seconds seconds_of is_within ◌+ℤ◌
add_fits total product h = rw (i64-small product h) (elim (Bool-cases (leb product max_seconds)) [
  | inl t ↦ rw t refl
  | inr f ↦ let g : leb (total + product) max_seconds ≡ false = ground arith in rw (f, g) refl
])

Digits-snoc : (num : Text) (c : ℕ) → Digits num → is_ascii_digit c ≡ true → Digits (num ++ c ∷ [])
Digits-snoc [] c h d = (d, tt)
Digits-snoc (x ∷ num) c h d = (h.0, Digits-snoc num c h.1 d)

-- One round of the loop at a unit, and what its success says.
step_sound :
    (s : Text) (units : List (ℕ × ℕ)) (num : Text) (total : ℤ) (u : ℕ) (part : Text) {n : ℤ}
    → is_ascii_digit u ≡ false
    → parse_segments s units num total (u ∷ part) ≡ ok n
    → (v secs : ℕ) × (parse_i64 num ≡ some v)
      × (unit_secs units u ≡ some secs)
      × (parse_segments s units [] (total +ℤ i64 (v * secs)) part ≡ ok n)
unfolding parse_segments
step_sound s units num total u part f h = elim (Option-cases (unit_secs units u)) [
  | inl e ↦ absurd (let h' = rw (f, e) at h in cc)
  | inr (secs, e) ↦ elim (Option-cases (parse_i64 num)) [
    | inl e' ↦ absurd (let h' = rw (f, e, e') at h in cc)
    | inr (v, e') ↦
        let (t, a, k) = >>=-eq-ok (add_seconds total (v * secs)) _ (rw (f, e, e') at h) in
        (v, secs, e', e, rw (← add_sound total (v * secs) a) k)
  ]
]

-- what the loop accepts is a text of segments
Segments-sound :
    (s : Text) (units : List (ℕ × ℕ)) (num : Text) (total : ℤ) (part : Text) {n : ℤ}
    → Digits num
    → parse_segments s units num total part ≡ ok n
    → (ks : List ℕ) × Segments units (num ++ part) ks × (n ≡ sum_i64 total ks)
unfolding parse_segments sum_i64
Segments-sound s units [] total [] {n} d h = ([], empty, let q : total ≡ n = cc in rw q refl)
Segments-sound s units (x ∷ num) total [] d h = absurd (cc)
Segments-sound s units num total (c ∷ part) {n} d h = elim (Bool-cases (is_ascii_digit c)) [
  | inl t ↦
      let (ks, g, e) =
        Segments-sound s units (num ++ c ∷ []) total part (Digits-snoc num c d t) (rw t at h) in
      (ks, subst (λ w. Segments units w ks) (append_assoc num (c ∷ []) part) g, e)
  | inr f ↦
      let (v, secs, e, e', h') = step_sound s units num total c part f h in
      let (ks, g, q) = Segments-sound s units [] (total +ℤ i64 (v * secs)) part tt h' in
      (v * secs ∷ ks, segment num c v secs d e f e' g, q)
]

Digits-run :
    (s : Text) (units : List (ℕ × ℕ)) (num : Text) (total : ℤ) (digits rest : Text)
    → Digits digits
    → parse_segments s units num total (digits ++ rest)
      ≡ parse_segments s units (num ++ digits) total rest
unfolding parse_segments
Digits-run s units num total [] rest h = rw append-nil
Digits-run s units num total (c ∷ digits) rest h =
    rw (h.0, Digits-run s units (num ++ c ∷ []) total digits rest h.1, append_assoc)

-- the seconds fit into 63 bits, one by one
abbrev pub FitI64 : List ℕ → Type 0
FitI64 = All (λ k. k < 2 ^ 63)

-- a text of segments is accepted, or there are too many seconds
Segments-complete :
    (s : Text) (units : List (ℕ × ℕ)) {part : Text} {ks : List ℕ} (total : ℕ)
    → Segments units part ks
    → FitI64 ks
    → total ≤ max_seconds
    → parse_segments s units [] (pos total) part
      ≡ (if leb (total + sum ks) max_seconds then ok (pos (total + sum ks)) else err overflow)
unfolding parse_segments sum
Segments-complete s units total empty small fits =
    let t : leb (total + 0) max_seconds ≡ true = ground arith in rw t (ap ok (ap pos (omega arith)))
Segments-complete s units total (segment {rest} {ks} digits u n secs d en fu es g) small fits =
    Digits-run s units [] (pos total) digits (u ∷ rest) d
    ∙ rw (fu, es, en, add_fits total (n * secs) small.0)
        (elim (Bool-cases (leb (total + n * secs) max_seconds)) [
          | inl t ↦ rw t (
              Segments-complete s units {part = rest} {ks = ks} (total + n * secs) g small.1
                (ground arith)
              ∙ rw (regroup total (n * secs) (sum ks)) refl)
          | inr f ↦
              let f' : leb (total + (n * secs + sum ks)) max_seconds ≡ false = ground arith in
              rw (f, f') refl
        ])
  where
    regroup : (a b c : ℕ) → a + b + c ≡ a + (b + c)
    regroup a b c = omega arith

-- No segment of the date part holds a `T`.
date-Free : {part : Text} {ks : List ℕ} → Segments date_units part ks → Free b'T' part
unfolding unit_secs
date-Free empty = tt
date-Free (segment {rest} digits u n secs d en fu es g) =
    prepend digits d (ground arith, date-Free g)
  where
    prepend : (ds : Text) → Digits ds → Free b'T' (u ∷ rest) → Free b'T' (ds ++ u ∷ rest)
    prepend [] h f = f
    prepend (c ∷ ds) h f = (ground arith, prepend ds h.1 f)

-- The texts that stand for a duration: `P`, a date part, and behind a `T` a time part.
pub data IsDuration : Text → List ℕ → Type 0 where
  date_only :
      {d : Text} {ks : List ℕ} → d ≢ [] → Segments date_units d ks → IsDuration (b'P' ∷ d) ks
  with_time :
      {d t : Text} {ks ms : List ℕ}
      → t ≢ []
      → Segments date_units d ks
      → Segments time_units t ms
      → IsDuration (b'P' ∷ d ++ b'T' ∷ t) (ks ++ ms)

is_empty_of_ne : (t : Text) → t ≢ [] → is_empty t ≡ false
is_empty_of_ne [] ne = absurd (ne refl)
is_empty_of_ne (c ∷ t) ne = refl

parse_rest-none :
    (s rest : Text)
    → rest ≢ []
    → split_once b'T' rest ≡ none
    → parse_rest s rest ≡ parse_segments s date_units [] (pos 0) rest
unfolding parse_rest
parse_rest-none s rest ne e = rw (is_empty_of_ne rest ne, e)

parse_rest-some :
    (s d t : Text)
    → t ≢ []
    → split_once b'T' (d ++ b'T' ∷ t) ≡ some (d, t)
    → parse_rest s (d ++ b'T' ∷ t) ≡ (
        parse_segments s date_units [] (pos 0) d >>= λ total.
        parse_segments s time_units [] total t)
unfolding parse_rest
parse_rest-some s d t ne e =
    rw (is_empty_of_ne (d ++ b'T' ∷ t) (nonempty d), e, is_empty_of_ne t ne) (ground arith)
  where
    nonempty : (d : Text) → d ++ b'T' ∷ t ≢ []
    nonempty [] q = cc
    nonempty (c ∷ d) q = cc

-- The parts of a duration's text, and what 64 bits keep of their sum.
abbrev pub Reads : Text → ℤ → Type 0
Reads s n = (ks : List ℕ) × IsDuration s ks × (n ≡ sum_i64 (pos 0) ks)

rest_sound : (s rest : Text) (n : ℤ) → parse_rest s rest ≡ ok n → Reads (b'P' ∷ rest) n
unfolding parse_rest
rest_sound s [] n h = absurd (cc)
rest_sound s (c ∷ rest) n h = elim (Option-cases (split_once b'T' (c ∷ rest))) [
  | inl e ↦
      let (ks, g, q) = Segments-sound s date_units [] (pos 0) (c ∷ rest) tt (rw e at h) in
      (ks, date_only (λ x. cc) g, q)
  | inr ((d, t), e) ↦ rw (split_once-eq b'T' (c ∷ rest) e) (parts_sound d t (rw e at h))
]
  where
    parts_sound : (d t : Text) → parse_parts s d (some t) ≡ ok n → Reads (b'P' ∷ d ++ b'T' ∷ t) n
    parts_sound d [] g = absurd (cc)
    parts_sound d (x ∷ t) g =
        let g' : (parse_segments s date_units [] (pos 0) d >>= λ total.
        parse_segments s time_units [] total (x ∷ t))
            ≡ ok n =
          ground arith in
        let (total, e, e') =
          >>=-eq-ok (parse_segments s date_units [] (pos 0) d)
            (λ total. parse_segments s time_units [] total (x ∷ t)) g' in
        let (ks, f, q) = Segments-sound s date_units [] (pos 0) d tt e in
        let (ms, f', q') = Segments-sound s time_units [] total (x ∷ t) tt e' in
        (ks ++ ms, with_time (λ y. cc) f f', rw (q', q, sum_i64-append) refl)

-- A text that the parser accepts is a duration of the grammar, and the result is the sum of its parts'
-- seconds, of each of which 64 bits are kept.
pub parse_iso8601_duration_sound : (s : Text) (n : ℤ) → parse_iso8601_duration s ≡ ok n → Reads s n
unfolding parse_iso8601_duration
parse_iso8601_duration_sound s n h = elim (Option-cases (strip_prefix (b'P' ∷ []) s)) [
  | inl e ↦ absurd (let h' = rw (e, parse_iso8601_duration) at h in cc)
  | inr (rest, e) ↦
      rw (strip_prefix-eq (b'P' ∷ []) s rest e)
        (rest_sound s rest n (rw (e, parse_iso8601_duration) at h))
]

date_run :
    (s : Text) {d : Text} {ks : List ℕ}
    → Segments date_units d ks
    → FitI64 ks
    → parse_segments s date_units [] (pos 0) d
      ≡ (if leb (sum ks) max_seconds then ok (pos (sum ks)) else err overflow)
date_run s {d} {ks} g small =
    let zero : 0 + sum ks ≡ sum ks = omega arith in
    rw zero at (Segments-complete s date_units {part = d} {ks = ks} 0 g small (omega arith))

-- Every duration of the grammar whose parts have fewer than 2^63 seconds each is accepted at its
-- number of seconds, if that is at most `max_seconds`, and otherwise it overflows.
pub parse_iso8601_duration_complete :
    {s : Text} {ks : List ℕ}
    → IsDuration s ks
    → FitI64 ks
    → parse_iso8601_duration s
      ≡ (if leb (sum ks) max_seconds then ok (pos (sum ks)) else err overflow)
unfolding parse_iso8601_duration
parse_iso8601_duration_complete (date_only {d} {ks} ne g) small =
    parse_rest-none (b'P' ∷ d) d ne (split_once-Free b'T' d (date-Free g))
    ∙ date_run (b'P' ∷ d) g small
parse_iso8601_duration_complete (with_time {d} {t} {ks} {ms} ne g g') small =
    let (a, b) = All-append (λ k. k < 2 ^ 63) ks ms small in
    parse_rest-some (b'P' ∷ d ++ b'T' ∷ t) d t ne (split_once-append b'T' d t (date-Free g))
    ∙ rw (date_run (b'P' ∷ d ++ b'T' ∷ t) g a, sum-append)
        (elim (Bool-cases (leb (sum ks) max_seconds)) [
          | inl h ↦ rw h (
              Segments-complete (b'P' ∷ d ++ b'T' ∷ t) time_units {part = t} {ks = ms} (sum ks) g' b
                (ground arith))
          | inr f ↦
              let f' : leb (sum ks + sum ms) max_seconds ≡ false = ground arith in rw (f, f') refl
        ])
