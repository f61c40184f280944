-- ===== src/Prelude/Lists.antt =====
-- Lists measured by native numbers and searched by Boolean tests (Rust's `len`, `any`, `all`,
-- `filter`, `find`, `filter_map`), with the lemmas that the components share.
use Prim.Native.Nat.{ℕ, zero, suc, ◌+◌}
use mathlib.Core.Path.{◌≡◌, refl}
use mathlib.Core.Logic.{◌⊎◌, inl, inr}
use mathlib.Core.List.{List, [], ◌∷◌, ◌++◌, Memᴰ}
use mathlib.Core.Bool.{Bool, true, false, ◌&&◌, ◌||◌}
use mathlib.Core.Option.{Option, none, some}
use native.Mathlib.Omega.{arith}
use agnoflow_engine.Prelude.Tests.{if◌then◌else◌, Bool-cases, Option-cases, or_opt}

module _ {ℓ} {A : Type ℓ} where
  abbrev pub length : List A → ℕ
  length [] = 0
  length (x ∷ xs) = suc (length xs)

  abbrev pub get_elem? : List A → ℕ → Option A
  get_elem? [] i = none
  get_elem? (x ∷ xs) zero = some x
  get_elem? (x ∷ xs) (suc i) = get_elem? xs i

  abbrev pub any : (A → Bool) → List A → Bool
  any p [] = false
  any p (x ∷ xs) = p x || any p xs

  abbrev pub all : (A → Bool) → List A → Bool
  all p [] = true
  all p (x ∷ xs) = p x && all p xs

  abbrev pub filter : (A → Bool) → List A → List A
  filter p [] = []
  filter p (x ∷ xs) = let rest = filter p xs in if p x then x ∷ rest else rest

  abbrev pub find : (A → Bool) → List A → Option A
  find p [] = none
  find p (x ∷ xs) = let rest = find p xs in if p x then some x else rest

  -- the last one that passes: `iter().rev().find(p)`
  abbrev pub rfind : (A → Bool) → List A → Option A
  rfind p [] = none
  rfind p (x ∷ xs) = or_opt (rfind p xs) (if p x then some x else none)

  abbrev pub is_empty : List A → Bool
  is_empty [] = true
  is_empty (x ∷ xs) = false

  abbrev pub head? : List A → Option A
  head? [] = none
  head? (x ∷ xs) = some x

  abbrev pub last? : List A → Option A
  last? [] = none
  last? (x ∷ xs) = or_opt (last? xs) (some x)

  abbrev pub All {κ} : (A → Type κ) → List A → Type κ
  All P [] = Unit
  All P (x ∷ xs) = P x × All P xs

abbrev pub find_map {ℓ κ} : {A : Type ℓ} {B : Type κ} → (A → Option B) → List A → Option B
find_map f [] = none
find_map f (x ∷ xs) = or_opt (f x) (find_map f xs)

abbrev pub take_while {ℓ} : {A : Type ℓ} → (A → Bool) → List A → List A
take_while p [] = []
take_while p (x ∷ xs) = let rest = take_while p xs in if p x then x ∷ rest else []

abbrev pub filter_map {ℓ κ} : {A : Type ℓ} {B : Type κ} → (A → Option B) → List A → List B
filter_map f [] = []
filter_map f (x ∷ xs) = let rest = filter_map f xs in elim (f x) [ none ↦ rest | some b ↦ b ∷ rest ]

pub Memᴰ-cases {ℓ} : {A : Type ℓ} {x y : A} {xs : List A} → Memᴰ x (y ∷ xs) → (x ≡ y) ⊎ Memᴰ x xs
Memᴰ-cases (Memᴰ.head e) = inl e
Memᴰ-cases (Memᴰ.tail m) = inr m

module _ {ℓ} {A : Type ℓ} (p : A → Bool) where
  pub any-mem : (xs : List A) → any p xs ≡ true → (x : A) × Memᴰ x xs × (p x ≡ true)
  any-mem [] h = absurd (cc)
  any-mem (x ∷ xs) h = elim (Bool-cases (p x)) [
    | inl t ↦ (x, Memᴰ.head refl, t)
    | inr f ↦ let (y, m, q) = any-mem xs (rw f at h) in (y, Memᴰ.tail m, q)
  ]

  pub mem-any : {x : A} (xs : List A) → Memᴰ x xs → p x ≡ true → any p xs ≡ true
  mem-any [] m h = elim m [ ]
  mem-any (y ∷ ys) (Memᴰ.head e) h = ground arith
  mem-any (y ∷ ys) (Memᴰ.tail m) h = ground (arith, mem-any ys m h)

  pub any-false : {x : A} (xs : List A) → any p xs ≡ false → Memᴰ x xs → p x ≡ false
  any-false [] h m = elim m [ ]
  any-false (y ∷ ys) h (Memᴰ.head e) = ground arith
  any-false (y ∷ ys) h (Memᴰ.tail m) = any-false ys (ground arith) m

  pub false-any : (xs : List A) → ((x : A) → Memᴰ x xs → p x ≡ false) → any p xs ≡ false
  false-any [] h = refl
  false-any (x ∷ xs) h =
      ground
        (arith, h x (Memᴰ.head refl), false-any xs (λ (y : A) (m : Memᴰ y xs). h y (Memᴰ.tail m)))

  pub find-mem : {x : A} (xs : List A) → find p xs ≡ some x → Memᴰ x xs × (p x ≡ true)
  find-mem [] h = absurd (cc)
  find-mem {x} (y ∷ ys) h = elim (Bool-cases (p y)) [
    | inl t ↦ let e : x ≡ y = ground arith in (Memᴰ.head e, rw e t)
    | inr f ↦ let (m, q) = find-mem ys (rw f at h) in (Memᴰ.tail m, q)
  ]

  pub find-none : {x : A} (xs : List A) → find p xs ≡ none → Memᴰ x xs → p x ≡ false
  find-none [] h m = elim m [ ]
  find-none (y ∷ ys) h (Memᴰ.head e) = ground arith
  find-none (y ∷ ys) h (Memᴰ.tail m) = find-none ys (ground arith) m

  pub mem-filter : {x : A} (xs : List A) → Memᴰ x (filter p xs) → Memᴰ x xs × (p x ≡ true)
  mem-filter [] m = elim m [ ]
  mem-filter {x} (y ∷ ys) m = elim (Bool-cases (p y)) [
    | inl t ↦ elim (Memᴰ-cases (rw t at m)) [
      | inl e ↦ (Memᴰ.head e, rw e t)
      | inr n ↦ let (k, q) = mem-filter ys n in (Memᴰ.tail k, q)
    ]
    | inr f ↦ let (k, q) = mem-filter ys (rw f at m) in (Memᴰ.tail k, q)
  ]

  pub filter-mem : {x : A} (xs : List A) → Memᴰ x xs → p x ≡ true → Memᴰ x (filter p xs)
  filter-mem [] m h = elim m [ ]
  filter-mem (y ∷ ys) (Memᴰ.head e) h = let t : p y ≡ true = ground arith in rw t (Memᴰ.head e)
  filter-mem (y ∷ ys) (Memᴰ.tail m) h = elim (Bool-cases (p y)) [
    | inl t ↦ rw t (Memᴰ.tail (filter-mem ys m h))
    | inr f ↦ rw f (filter-mem ys m h)
  ]

pub length-append {ℓ} : {A : Type ℓ} (xs ys : List A) → length (xs ++ ys) ≡ length xs + length ys
length-append [] ys = omega arith
length-append (x ∷ xs) ys = omega (arith, length-append xs ys)

pub mem-append_left {ℓ} : {A : Type ℓ} {x : A} (xs ys : List A) → Memᴰ x xs → Memᴰ x (xs ++ ys)
mem-append_left [] ys m = elim m [ ]
mem-append_left (y ∷ xs) ys (Memᴰ.head e) = Memᴰ.head e
mem-append_left (y ∷ xs) ys (Memᴰ.tail m) = Memᴰ.tail (mem-append_left xs ys m)

pub mem-append_right {ℓ} : {A : Type ℓ} {x : A} (xs ys : List A) → Memᴰ x ys → Memᴰ x (xs ++ ys)
mem-append_right [] ys m = m
mem-append_right (y ∷ xs) ys m = Memᴰ.tail (mem-append_right xs ys m)

pub mem-append {ℓ} :
    {A : Type ℓ} {x : A} (xs ys : List A) → Memᴰ x (xs ++ ys) → Memᴰ x xs ⊎ Memᴰ x ys
mem-append [] ys m = inr m
mem-append (y ∷ xs) ys (Memᴰ.head e) = inl (Memᴰ.head e)
mem-append (y ∷ xs) ys (Memᴰ.tail m) = elim (mem-append xs ys m) [
  | inl l ↦ inl (Memᴰ.tail l)
  | inr r ↦ inr r
]

module _ {ℓ} {A : Type ℓ} (p : A → Bool) where
  pub any-append : (xs ys : List A) → any p (xs ++ ys) ≡ (any p xs || any p ys)
  any-append [] ys = refl
  any-append (x ∷ xs) ys = ground (arith, any-append xs ys)

  pub filter-append : (xs ys : List A) → filter p (xs ++ ys) ≡ filter p xs ++ filter p ys
  filter-append [] ys = refl
  filter-append (x ∷ xs) ys = elim (Bool-cases (p x)) [
    | inl t ↦ rw (t, filter-append xs ys)
    | inr f ↦ rw (f, filter-append xs ys)
  ]

  pub filter-none : (xs : List A) → All (λ x. p x ≡ false) xs → filter p xs ≡ []
  filter-none [] h = refl
  filter-none (x ∷ xs) h = rw (h.0, filter-none xs h.1)

  pub rfind-append : (xs ys : List A) → rfind p (xs ++ ys) ≡ or_opt (rfind p ys) (rfind p xs)
  rfind-append [] ys = ground arith
  rfind-append (x ∷ xs) ys = ground (arith, rfind-append xs ys)

  pub rfind-mem : (xs : List A) {x : A} → rfind p xs ≡ some x → Memᴰ x xs × (p x ≡ true)
  rfind-mem [] h = absurd (cc)
  rfind-mem (y ∷ ys) {x} h = elim (Option-cases (rfind p ys)) [
    | inl e ↦ elim (Bool-cases (p y)) [
      | inl t ↦ let q : x ≡ y = ground arith in (Memᴰ.head q, rw q t)
      | inr f ↦ absurd (let h' = rw (e, f) at h in cc)
    ]
    | inr (z, e) ↦
        let (m, t) = rfind-mem ys e in let q : x ≡ z = ground arith in (Memᴰ.tail (rw q m), rw q t)
  ]

  pub any-take_while-append :
      (q : A → Bool) (xs ys : List A)
      → any p (take_while q xs) ≡ true
      → any p (take_while q (xs ++ ys)) ≡ true
  any-take_while-append q [] ys h = cc
  any-take_while-append q (x ∷ xs) ys h = elim (Bool-cases (q x)) [
    | inl t ↦ rw t (ground (arith, any-take_while-append q xs ys, rw t at h))
    | inr f ↦ absurd (let h' = rw f at h in cc)
  ]

pub All-append {ℓ κ} :
    {A : Type ℓ} (P : A → Type κ) (xs ys : List A) → All P (xs ++ ys) → All P xs × All P ys
All-append P [] ys h = (tt, h)
All-append P (x ∷ xs) ys h = let (l, r) = All-append P xs ys h.1 in ((h.0, l), r)

-- and together again
pub All-join {ℓ κ} :
    {A : Type ℓ} (P : A → Type κ) (xs ys : List A) → All P xs → All P ys → All P (xs ++ ys)
All-join P [] ys h k = k
All-join P (x ∷ xs) ys h k = (h.0, All-join P xs ys h.1 k)

pub All-mem {ℓ κ} : {A : Type ℓ} (P : A → Type κ) {x : A} (xs : List A) → All P xs → Memᴰ x xs → P x
All-mem P [] h m = elim m [ ]
All-mem P (y ∷ xs) h (Memᴰ.head e) = rw e h.0
All-mem P (y ∷ xs) h (Memᴰ.tail m) = All-mem P xs h.1 m

pub All-snoc {ℓ κ} :
    {A : Type ℓ} (P : A → Type κ) (xs : List A) (x : A) → All P xs → P x → All P (xs ++ x ∷ [])
All-snoc P [] x h p = (p, tt)
All-snoc P (y ∷ xs) x h p = (h.0, All-snoc P xs x h.1 p)

pub All-map {ℓ κ} :
    {A : Type ℓ} (P Q : A → Type κ) (xs : List A) → ((x : A) → P x → Q x) → All P xs → All Q xs
All-map P Q [] f h = tt
All-map P Q (x ∷ xs) f h = (f x h.0, All-map P Q xs f h.1)

pub find_map-append {ℓ κ} :
    {A : Type ℓ} {B : Type κ} (f : A → Option B) (xs ys : List A)
    → find_map f (xs ++ ys) ≡ or_opt (find_map f xs) (find_map f ys)
find_map-append f [] ys = refl
find_map-append f (x ∷ xs) ys = ground (arith, find_map-append f xs ys)

pub last?-none {ℓ} : {A : Type ℓ} (xs : List A) → last? xs ≡ none → xs ≡ []
last?-none [] h = refl
last?-none (x ∷ xs) h = elim (Option-cases (last? xs)) [
  | inl e ↦ absurd (let h' = rw e at h in cc)
  | inr (y, e) ↦ absurd (let h' = rw e at h in cc)
]

pub last?-mem {ℓ} : {A : Type ℓ} (xs : List A) {x : A} → last? xs ≡ some x → Memᴰ x xs
last?-mem [] h = absurd (cc)
last?-mem (y ∷ ys) {x} h = elim (Option-cases (last? ys)) [
  | inl e ↦ let q : x ≡ y = ground arith in Memᴰ.head q
  | inr (z, e) ↦ let q : x ≡ z = ground arith in Memᴰ.tail (rw q (last?-mem ys e))
]
