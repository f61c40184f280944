-- ===== src/Prelude/Integers.antt =====
-- The integers: a native number, or the negative of one and one more; and the casts of Rust to `i64`.
use Prim.Native.Nat.{ℕ, ◌+◌, ◌-◌, ◌%◌, ◌^◌, ◌<◌}
use mathlib.Core.Path.{◌≡◌, refl}
use mathlib.Core.Bool.{Bool, true}
use native.Mathlib.Omega.{arith}
use agnoflow_engine.Prelude.Tests.{leb, ltb, if◌then◌else◌}

pub data ℤ : Type 0 where
  pos negsuc : ℕ → ℤ

-- the difference of two numbers
abbrev pub difference : ℕ → ℕ → ℤ
difference m n = if leb n m then pos (m - n) else negsuc (n - m - 1)

infixl 60 ◌+ℤ◌
unfoldable pub ◌+ℤ◌ : ℤ → ℤ → ℤ
pos a +ℤ pos b = pos (a + b)
pos a +ℤ negsuc b = difference a (b + 1)
negsuc a +ℤ pos b = difference b (a + 1)
negsuc a +ℤ negsuc b = negsuc (a + b + 1)

-- The `i64` that the low 64 bits of a number stand for, in two's complement.
unfoldable pub i64 : ℕ → ℤ
i64 n = let w = n % 2 ^ 64 in if ltb w (2 ^ 63) then pos w else negsuc (2 ^ 64 - 1 - w)

-- neither above the bound nor below its negative
unfoldable pub is_within : ℕ → ℤ → Bool
is_within bound (pos n) = leb n bound
is_within bound (negsuc n) = ltb n bound

pub i64-small : (n : ℕ) → n < 2 ^ 63 → i64 n ≡ pos n
unfolding i64
i64-small n h =
    let e : n % 2 ^ 64 ≡ n = omega arith in
    let t : ltb n (2 ^ 63) ≡ true = ground arith in rw (e, t) refl
