-- ===== src/Prelude/Results.antt =====
-- `Result<T, E>`, its monad, and the lemmas that take a successful chain apart.
use mathlib.Core.Path.{◌≡◌, refl}
use mathlib.Core.Logic.{◌⊎◌, inl, inr}
use mathlib.Core.List.{List, [], ◌∷◌}

-- The error's type stands first, as the monad fixes it.
pub data Result {ℓ} (E A : Type ℓ) : Type ℓ where
  err : E → Result E A
  ok : A → Result E A

infixl 5 ◌>>=◌ ◌>>◌
abbrev pub ◌>>=◌ {ℓ} : {E A B : Type ℓ} → Result E A → (A → Result E B) → Result E B
err failure >>= next = err failure
ok value >>= next = next value

abbrev pub ◌>>◌ {ℓ} : {E A B : Type ℓ} → Result E A → Result E B → Result E B
first >> second = first >>= λ value. second

-- `iter().map(f).collect::<Result<Vec<_>, _>>()`
abbrev pub collect {ℓ} : {E A B : Type ℓ} → (A → Result E B) → List A → Result E (List B)
collect f [] = ok []
collect f (x ∷ xs) = f x >>= λ y. collect f xs >>= λ ys. ok (y ∷ ys)

-- A chain that succeeds has succeeded at its first step, with a value that the rest starts from.
pub >>=-eq-ok {ℓ} :
    {E A B : Type ℓ} (step : Result E A) (next : A → Result E B) {last : B}
    → (step >>= next) ≡ ok last
    → (value : A) × (step ≡ ok value) × (next value ≡ ok last)
>>=-eq-ok (err failure) next chain = cc
>>=-eq-ok (ok value) next chain = (value, refl, chain)

pub result_cases {ℓ} :
    {E A : Type ℓ} (r : Result E A) → ((a : A) × (r ≡ ok a)) ⊎ ((e : E) × (r ≡ err e))
result_cases (ok a) = inl (a, refl)
result_cases (err e) = inr (e, refl)
