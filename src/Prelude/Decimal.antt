-- ===== src/Prelude/Decimal.antt =====
-- How Rust prints and parses a `usize`: `format!("{n}")` and `str::parse::<usize>()`.
use Prim.Native.Nat.{ℕ, zero, suc, ◌+◌, ◌-◌, ◌*◌, ◌/◌, ◌%◌, ◌^◌, ◌<◌}
use mathlib.Core.Path.{◌≡◌, refl}
use mathlib.Core.List.{[], ◌∷◌, ◌++◌}
use mathlib.Core.Bool.{Bool, true, false, ◌&&◌}
use mathlib.Core.Option.{Option, none, some}
use native.Mathlib.Omega.{arith}
use agnoflow_engine.Prelude.Tests.{ltb, leb, ◌==◌, if◌then◌else◌, Bool-cases}
use mathlib.Core.Logic.{inl, inr}
use agnoflow_engine.Prelude.Lists.{all, is_empty}
use agnoflow_engine.Prelude.Texts.{Text, Free}

to_digits : ℕ → ℕ → Text
to_digits zero n = []
to_digits (suc fuel) n =
    let front = to_digits fuel (n / 10) in
    if ltb n 10 then (48 + n) ∷ [] else front ++ (48 + n % 10) ∷ []

-- Each round divides by ten, so that as many rounds as the number are enough.
unfoldable pub decimal_text : ℕ → Text
unfolding to_digits
decimal_text n = to_digits (suc n) n

abbrev pub is_digit : ℕ → Bool
is_digit c = leb 48 c && leb c 57

value_from : ℕ → Text → ℕ
value_from n [] = n
value_from n (c ∷ cs) = value_from (n * 10 + (c - 48)) cs

abbrev usize_max : ℕ
usize_max = 2 ^ 64 - 1

parse_digits : Text → Option ℕ
unfolding value_from
parse_digits ds =
    if is_empty ds
    then none
    else if all is_digit ds && leb (value_from 0 ds) usize_max
    then some (value_from 0 ds)
    else none

-- One sign `+` may stand in front.
unfoldable pub parse_usize : Text → Option ℕ
unfolding parse_digits
parse_usize [] = none
parse_usize (c ∷ cs) = if c == 43 then parse_digits cs else parse_digits (c ∷ cs)

value-snoc :
    (n : ℕ) (ds : Text) (c : ℕ) → value_from n (ds ++ c ∷ []) ≡ value_from n ds * 10 + (c - 48)
unfolding value_from
value-snoc n [] c = refl
value-snoc n (d ∷ ds) c = value-snoc (n * 10 + (d - 48)) ds c

value-to_digits : (fuel n : ℕ) → n < fuel → value_from 0 (to_digits fuel n) ≡ n
unfolding to_digits
value-to_digits zero n h = elim h [ ]
value-to_digits (suc fuel) n h = elim (Bool-cases (ltb n 10)) [
  | inl t ↦ rw t (unfold value_from in omega arith)
  | inr f ↦
      let m : n / 10 < fuel = ground arith in
      rw (f, value-snoc) (omega (arith, value-to_digits fuel (n / 10) m))
]

all-snoc :
    (ds : Text) (c : ℕ)
    → all is_digit ds ≡ true
    → is_digit c ≡ true
    → all is_digit (ds ++ c ∷ []) ≡ true
all-snoc [] c h d = ground arith
all-snoc (x ∷ ds) c h d = ground (arith, all-snoc ds c)

to_digits_digits : (fuel n : ℕ) → all is_digit (to_digits fuel n) ≡ true
unfolding to_digits
to_digits_digits zero n = refl
to_digits_digits (suc fuel) n = elim (Bool-cases (ltb n 10)) [
  | inl t ↦ rw t (ground arith)
  | inr f ↦
      let m : n % 10 < 10 = omega arith in
      rw f (
        all-snoc (to_digits fuel (n / 10)) (48 + n % 10) (to_digits_digits fuel (n / 10))
          (ground arith))
]

-- the last digit stands alone behind the others
pub decimal_text_last :
    (n : ℕ) → (front : Text) × (c : ℕ) × (decimal_text n ≡ front ++ c ∷ []) × (is_digit c ≡ true)
unfolding decimal_text
decimal_text_last n = elim (Bool-cases (ltb n 10)) [
  | inl t ↦ ([], 48 + n, rw (t, to_digits), ground arith)
  | inr f ↦
      let m : n % 10 < 10 = omega arith in
      (to_digits n (n / 10), 48 + n % 10, rw (f, to_digits), ground arith)
]

pub decimal_text-Free : (c n : ℕ) → is_digit c ≡ false → Free c (decimal_text n)
unfolding decimal_text
decimal_text-Free c n h = go (to_digits (suc n) n) (to_digits_digits (suc n) n)
  where
    go : (ds : Text) → all is_digit ds ≡ true → Free c ds
    go [] d = tt
    go (x ∷ ds) d = (ground arith, go ds (ground arith))

parse_usize_digits :
    (ds : Text) (n : ℕ)
    → is_empty ds ≡ false
    → all is_digit ds ≡ true
    → value_from 0 ds ≡ n
    → n < 2 ^ 64
    → parse_usize ds ≡ some n
unfolding parse_usize
parse_usize_digits [] n e d v h = cc
parse_usize_digits (c ∷ cs) n e d v h = ground arith

to_digits_nonempty : (fuel n : ℕ) → is_empty (to_digits (suc fuel) n) ≡ false
unfolding to_digits
to_digits_nonempty fuel n = elim (Bool-cases (ltb n 10)) [
  | inl t ↦ rw t
  | inr f ↦ rw f (snoc (to_digits fuel (n / 10)))
]
  where
    snoc : (ds : Text) → is_empty (ds ++ (48 + n % 10) ∷ []) ≡ false
    snoc [] = refl
    snoc (d ∷ ds) = refl

-- What is printed parses back.
pub parse_usize-decimal_text : (n : ℕ) → n < 2 ^ 64 → parse_usize (decimal_text n) ≡ some n
unfolding decimal_text
parse_usize-decimal_text n h =
    parse_usize_digits (to_digits (suc n) n) n (to_digits_nonempty n n) (to_digits_digits (suc n) n)
      (value-to_digits (suc n) n (omega arith)) h
