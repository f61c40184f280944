-- ===== src/Prelude/Texts.antt =====
-- Text as the list of its Unicode code points, with the parts of Rust's `str` that the program
-- uses: equality, prefixes and suffixes, and splitting at a character.
use Prim.Native.Nat.{ℕ}
use Prim.Native.Char.{code}
use Prim.Native.String.{String}
use mathlib.Core.Path.{◌≡◌, refl, ap}
use mathlib.Core.Logic.{◌↔◌, inl, inr}
use mathlib.Core.List.{List, [], ◌∷◌, ◌++◌, reverse, reverse-reverse, reverse-append}
use mathlib.Core.Bool.{Bool, true, false, ◌&&◌, ◌||◌}
use mathlib.Core.Option.{Option, none, some}
use native.Mathlib.Omega.{arith}
use agnoflow_engine.Prelude.Tests.{
  Bool-cases, Option-cases, ◌==◌, leb, if◌then◌else◌, map_opt, or_opt, is_some,
}

abbrev pub Text : Type 0
Text = List ℕ

-- The code points of a literal.
abbrev pub codes : String → Text
codes String.[] = []
codes (String.◌∷◌ c s) = code c ∷ codes s

unfoldable pub text_eq : Text → Text → Bool
text_eq [] [] = true
text_eq [] (y ∷ ys) = false
text_eq (x ∷ xs) [] = false
text_eq (x ∷ xs) (y ∷ ys) = x == y && text_eq xs ys

pub text_eq_sound : (s t : Text) → text_eq s t ≡ true → s ≡ t
unfolding text_eq
text_eq_sound [] [] h = refl
text_eq_sound [] (y ∷ ys) h = cc
text_eq_sound (x ∷ xs) [] h = cc
text_eq_sound (x ∷ xs) (y ∷ ys) h = ground (arith, text_eq_sound xs ys)

pub text_eq_refl : (s : Text) → text_eq s s ≡ true
unfolding text_eq
text_eq_refl [] = refl
text_eq_refl (x ∷ xs) = ground (arith, text_eq_refl xs)

pub text_eq-apart : (s t : Text) → text_eq s t ≡ false → ¬ (s ≡ t)
text_eq-apart s t f e = absurd (let g = rw (e, text_eq_refl t) at f in cc)

pub text_eq_iff : (s t : Text) → (text_eq s t ≡ true) ↔ (s ≡ t)
text_eq_iff s t = (text_eq_sound s t, λ e. rw e (text_eq_refl t))

unfoldable pub strip_prefix : Text → Text → Option Text
strip_prefix [] s = some s
strip_prefix (p ∷ ps) [] = none
strip_prefix (p ∷ ps) (x ∷ xs) = let rest = strip_prefix ps xs in if p == x then rest else none

abbrev pub starts_with : Text → Text → Bool
starts_with p s = is_some (strip_prefix p s)

unfoldable pub strip_suffix : Text → Text → Option Text
strip_suffix p s = map_opt reverse (strip_prefix (reverse p) (reverse s))

abbrev pub cons_fst : ℕ → Text × Text → Text × Text
cons_fst x (a, b) = (x ∷ a, b)

-- the parts before and after the first `c`
unfoldable pub split_once : ℕ → Text → Option (Text × Text)
split_once c [] = none
split_once c (x ∷ xs) =
    let rest = split_once c xs in if x == c then some ([], xs) else map_opt (cons_fst x) rest

-- the parts before and after the last `c`
unfoldable pub rsplit_once : ℕ → Text → Option (Text × Text)
rsplit_once c [] = none
rsplit_once c (x ∷ xs) =
    or_opt (map_opt (cons_fst x) (rsplit_once c xs)) (if x == c then some ([], xs) else none)

abbrev cons_head : ℕ → List Text → List Text
cons_head x [] = (x ∷ []) ∷ []
cons_head x (w ∷ ws) = (x ∷ w) ∷ ws

-- `s.split(c)`: always at least one part
unfoldable pub split : ℕ → Text → List Text
split c [] = [] ∷ []
split c (x ∷ xs) = let rest = split c xs in if x == c then [] ∷ rest else cons_head x rest

-- The White_Space property of Unicode, as `char::is_whitespace` has it.
is_space : ℕ → Bool
is_space c =
    (leb 9 c && leb c 13)
    || (c == 32
        || (c == 133
            || (c == 160
                || (c == 0x1680
                    || ((leb 0x2000 c && leb c 0x200a)
                        || (c == 0x2028
                            || (c == 0x2029 || (c == 0x202f || (c == 0x205f || c == 0x3000)))))))))

trim_start : Text → Text
unfolding is_space
trim_start [] = []
trim_start (c ∷ cs) = let rest = trim_start cs in if is_space c then rest else c ∷ cs

-- `str::trim`
unfoldable pub trim : Text → Text
unfolding trim_start
trim s = reverse (trim_start (reverse (trim_start s)))

abbrev pub Free : ℕ → Text → Type 0
Free c [] = Unit
Free c (x ∷ xs) = ((x == c) ≡ false) × Free c xs

pub strip_prefix-append : (p s : Text) → strip_prefix p (p ++ s) ≡ some s
unfolding strip_prefix
strip_prefix-append [] s = refl
strip_prefix-append (x ∷ p) s = ground (arith, strip_prefix-append p s)

pub strip_prefix-eq : (p s r : Text) → strip_prefix p s ≡ some r → s ≡ p ++ r
unfolding strip_prefix
strip_prefix-eq [] s r h = ground arith
strip_prefix-eq (x ∷ p) [] r h = cc
strip_prefix-eq (x ∷ p) (y ∷ s) r h = ground (arith, strip_prefix-eq p s r)

pub strip_suffix-append : (p s : Text) → strip_suffix p (s ++ p) ≡ some s
unfolding strip_suffix
strip_suffix-append p s = rw reverse-append (rw strip_prefix-append (ap some (reverse-reverse s)))

pub split_once-append : (c : ℕ) (s t : Text) → Free c s → split_once c (s ++ c ∷ t) ≡ some (s, t)
unfolding split_once
split_once-append c [] t h = ground arith
split_once-append c (x ∷ s) t h = rw (h.0, split_once-append c s t h.1)

pub rsplit_once-Free : (c : ℕ) (t : Text) → Free c t → rsplit_once c t ≡ none
unfolding rsplit_once
rsplit_once-Free c [] h = refl
rsplit_once-Free c (x ∷ t) h = rw (rsplit_once-Free c t h.1, h.0)

pub rsplit_once-append : (c : ℕ) (s t : Text) → Free c t → rsplit_once c (s ++ c ∷ t) ≡ some (s, t)
unfolding rsplit_once
rsplit_once-append c [] t h = rw (rsplit_once-Free c t h) (ground arith)
rsplit_once-append c (x ∷ s) t h = rw (rsplit_once-append c s t h)

pub split_once-eq : (c : ℕ) (s : Text) {a b : Text} → split_once c s ≡ some (a, b) → s ≡ a ++ c ∷ b
unfolding split_once
split_once-eq c [] h = cc
split_once-eq c (x ∷ s) {a} {b} h = elim (Bool-cases (x == c)) [
  | inl t ↦ ground arith
  | inr f ↦ elim (Option-cases (split_once c s)) [
    | inl e ↦ absurd (let h' = rw (f, e) at h in cc)
    | inr ((a', b'), e) ↦ let ih = split_once-eq c s e in ground arith
  ]
]

pub split_once-Free : (c : ℕ) (s : Text) → Free c s → split_once c s ≡ none
unfolding split_once
split_once-Free c [] h = refl
split_once-Free c (x ∷ s) h = rw (h.0, split_once-Free c s h.1)
