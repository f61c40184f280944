-- ===== src/Pipeline/Graph/Queue.antt =====
-- crates/wfe-core/src/v22/pipeline.rs: the queue of `fork_subgraph` keeps each node once, and takes in
-- what is not seen yet.
use agnoflow_engine.Prelude.{
  ℕ, suc, ◌+◌, ◌≤◌, ◌≡◌, ◌⊎◌, refl, ap, inl, inr, arith, true, false, not, List, [], ◌∷◌, ◌++◌,
  Memᴰ, Memᴰ-cases, Bool-cases, Text, text_eq, text_eq_sound, text_eq_refl, any-mem, mem-any,
  filter, length, length-append, mem-append, mem-append_left, mem-append_right,
}
use agnoflow_engine.Pipeline.Routing.{contains}
use agnoflow_engine.Pipeline.Graph.{enqueue}

contains-mem : (seen : List Text) (n : Text) → contains seen n ≡ true → Memᴰ n seen
contains-mem seen n h = let (x, m, e) = any-mem (text_eq n) seen h in rw (text_eq_sound n x e) m

mem-contains : (seen : List Text) (n : Text) → Memᴰ n seen → contains seen n ≡ true
mem-contains seen n m = mem-any (text_eq n) seen m (text_eq_refl n)

enqueue-old :
    (x : Text) (xs seen queue : List Text)
    → contains seen x ≡ true
    → enqueue (x ∷ xs) (seen, queue) ≡ enqueue xs (seen, queue)
unfolding enqueue
enqueue-old x xs seen queue t = rw (t, enqueue)

enqueue-new :
    (x : Text) (xs seen queue : List Text)
    → contains seen x ≡ false
    → enqueue (x ∷ xs) (seen, queue) ≡ enqueue xs (x ∷ seen, queue ++ x ∷ [])
unfolding enqueue
enqueue-new x xs seen queue f = rw (f, enqueue)

-- Every node that is seen or queued has the property, if the new targets have it.
pub enqueue-All :
    (P : Text → Type 0) (xs seen queue : List Text)
    → ((n : Text) → Memᴰ n xs → P n)
    → ((n : Text) → Memᴰ n seen → P n)
    → ((n : Text) → Memᴰ n queue → P n)
    → ((n : Text) → Memᴰ n (enqueue xs (seen, queue)).0 → P n)
      × ((n : Text) → Memᴰ n (enqueue xs (seen, queue)).1 → P n)
unfolding enqueue
enqueue-All P [] seen queue new old waits = (old, waits)
enqueue-All P (x ∷ xs) seen queue new old waits = elim (Bool-cases (contains seen x)) [
  | inl t ↦
      rw (enqueue-old x xs seen queue t)
        (enqueue-All P xs seen queue (λ n m. new n (Memᴰ.tail m)) old waits)
  | inr f ↦ rw (enqueue-new x xs seen queue f) (
      enqueue-All P xs (x ∷ seen) (queue ++ x ∷ []) (λ n m. new n (Memᴰ.tail m))
        (λ n m. elim (Memᴰ-cases m) [ inl e ↦ new n (Memᴰ.head e) | inr k ↦ old n k ])
        (λ n m. elim (mem-append queue (x ∷ []) m) [
          | inl k ↦ waits n k
          | inr k ↦ elim (Memᴰ-cases k) [ inl e ↦ new n (Memᴰ.head e) | inr z ↦ elim z [ ] ]
        ]))
]

-- How many of the nodes `all` the walk has not seen.
pub unseen : List Text → List Text → ℕ
unseen seen all = length (filter (λ x. not (contains seen x)) all)

unseen-le : (seen all : List Text) (x : Text) → unseen (x ∷ seen) all ≤ unseen seen all
unfolding unseen
unseen-le seen [] x = omega arith
unseen-le seen (y ∷ all) x = ground (arith, unseen-le seen all x)

unseen-lt :
    (seen all : List Text) (x : Text)
    → Memᴰ x all
    → contains seen x ≡ false
    → suc (unseen (x ∷ seen) all) ≤ unseen seen all
unfolding unseen
unseen-lt seen [] x m h = elim m [ ]
unseen-lt seen (y ∷ all) x m h = elim (Memᴰ-cases m) [
  | inl e ↦ rw (← e, h, text_eq_refl x) (omega (arith, unseen-le seen all x))
  | inr k ↦ ground (arith, unseen-lt seen all x k h, unseen-le seen all x)
]

-- Queueing takes as much off the unseen nodes as it adds to the queue.
pub enqueue-measure :
    (xs seen queue all : List Text)
    → ((n : Text) → Memᴰ n xs → Memᴰ n all)
    → length (enqueue xs (seen, queue)).1 + unseen (enqueue xs (seen, queue)).0 all
      ≤ length queue + unseen seen all
unfolding enqueue
enqueue-measure [] seen queue all h = omega arith
enqueue-measure (x ∷ xs) seen queue all h = elim (Bool-cases (contains seen x)) [
  | inl t ↦
      rw (enqueue-old x xs seen queue t)
        (enqueue-measure xs seen queue all (λ n m. h n (Memᴰ.tail m)))
  | inr f ↦ rw (enqueue-new x xs seen queue f) (
      omega (
        arith,
        enqueue-measure xs (x ∷ seen) (queue ++ x ∷ []) all (λ n m. h n (Memᴰ.tail m)),
        unseen-lt seen all x (h x (Memᴰ.head refl)) f,
        length-append queue (x ∷ []),
      ))
]

-- Nothing that is seen is forgotten, and the new targets are seen.
pub enqueue-seen :
    (xs seen queue : List Text) {n : Text}
    → Memᴰ n seen ⊎ Memᴰ n xs
    → Memᴰ n (enqueue xs (seen, queue)).0
unfolding enqueue
enqueue-seen [] seen queue m = elim m [ inl k ↦ k | inr k ↦ elim k [ ] ]
enqueue-seen (x ∷ xs) seen queue m = elim (Bool-cases (contains seen x)) [
  | inl t ↦ rw (enqueue-old x xs seen queue t) (
      enqueue-seen xs seen queue (elim m [
        | inl k ↦ inl k
        | inr k ↦ elim (Memᴰ-cases k) [ inl e ↦ inl (rw e (contains-mem seen x t)) | inr z ↦ inr z ]
      ]))
  | inr f ↦ rw (enqueue-new x xs seen queue f) (
      enqueue-seen xs (x ∷ seen) (queue ++ x ∷ []) (elim m [
        | inl k ↦ inl (Memᴰ.tail k)
        | inr k ↦ elim (Memᴰ-cases k) [ inl e ↦ inl (Memᴰ.head e) | inr z ↦ inr z ]
      ]))
]

pub enqueue-queue :
    (xs seen queue : List Text) {n : Text} → Memᴰ n queue → Memᴰ n (enqueue xs (seen, queue)).1
unfolding enqueue
enqueue-queue [] seen queue m = m
enqueue-queue (x ∷ xs) seen queue m = elim (Bool-cases (contains seen x)) [
  | inl t ↦ rw (enqueue-old x xs seen queue t) (enqueue-queue xs seen queue m)
  | inr f ↦
      rw (enqueue-new x xs seen queue f)
        (enqueue-queue xs (x ∷ seen) (queue ++ x ∷ []) (mem-append_left queue (x ∷ []) m))
]

-- What is seen has been seen before, or waits in the queue.
pub enqueue-fresh :
    (xs seen queue : List Text) {n : Text}
    → Memᴰ n (enqueue xs (seen, queue)).0
    → Memᴰ n seen ⊎ Memᴰ n (enqueue xs (seen, queue)).1
unfolding enqueue
enqueue-fresh [] seen queue m = inl m
enqueue-fresh (x ∷ xs) seen queue m = elim (Bool-cases (contains seen x)) [
  | inl t ↦
      rw (enqueue-old x xs seen queue t)
        (enqueue-fresh xs seen queue (rw (enqueue-old x xs seen queue t) at m))
  | inr f ↦
      rw (enqueue-new x xs seen queue f)
        (elim (enqueue-fresh xs (x ∷ seen) (queue ++ x ∷ [])
          (rw (enqueue-new x xs seen queue f) at m)) [
            | inl k ↦ elim (Memᴰ-cases k) [
              | inl e ↦ inr (
                  rw e (
                    enqueue-queue xs (x ∷ seen) (queue ++ x ∷ [])
                      (mem-append_right queue (x ∷ []) (Memᴰ.head refl))))
              | inr z ↦ inl z
            ]
            | inr k ↦ inr k
          ])
]

pub unseen_none : (all : List Text) → unseen [] all ≡ length all
unfolding unseen
unseen_none [] = refl
unseen_none (x ∷ all) = ap suc (unseen_none all)
