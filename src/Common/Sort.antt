-- ===== src/Common/Sort.antt =====
-- `Array.prototype.sort` by a comparison, which keeps the order of equal elements.
use mathlib.Core.Path.{◌≡◌}
use mathlib.Core.Logic.{inl, inr}
use mathlib.Core.Bool.{Bool, true, false}
use mathlib.Core.List.{List, [], ◌∷◌}
use dacs_agent_reference.Common.Tests.{if◌then◌else◌, Bool-cases}
use dacs_agent_reference.Common.Lists.{All, All-map₂}

module _ {ℓ} {A : Type ℓ} where
  abbrev reverse_onto : List A → List A → List A
  reverse_onto [] acc = acc
  reverse_onto (x ∷ xs) acc = reverse_onto xs (x ∷ acc)

  abbrev pub reverse : List A → List A
  reverse xs = reverse_onto xs []

-- Each element is related to all later ones.
abbrev pub Ordered {ℓ} : {A : Type ℓ} → (A → A → Type 0) → List A → Type 0
Ordered R [] = Unit
Ordered R (x ∷ xs) = All (R x) xs × Ordered R xs

module _ {ℓ} {A : Type ℓ} (le : A → A → Bool) where
  -- before the first element that need not come earlier
  abbrev pub insert : A → List A → List A
  insert x [] = x ∷ []
  insert x (y ∷ ys) = if le x y then x ∷ y ∷ ys else y ∷ insert x ys

  unfoldable pub sort : List A → List A
  sort [] = []
  sort (x ∷ xs) = insert x (sort xs)

  -- Sorted, and sorted the other way round.
  abbrev pub Sorted : List A → Type 0
  Sorted xs = Ordered (λ x y. le x y ≡ true) xs

  abbrev pub Descending : List A → Type 0
  Descending xs = Ordered (λ x y. le y x ≡ true) xs

  module _ (P : A → Type 0) where
    All-insert : (x : A) (ys : List A) → P x → All P ys → All P (insert x ys)
    All-insert x [] p h = (p, tt)
    All-insert x (y ∷ ys) p h = elim (Bool-cases (le x y)) [
      | inl t ↦ rw t (p, h)
      | inr f ↦ rw f (h.0, All-insert x ys p h.1)
    ]

    insert-All : (x : A) (ys : List A) → All P (insert x ys) → P x × All P ys
    insert-All x [] h = h
    insert-All x (y ∷ ys) h = elim (Bool-cases (le x y)) [
      | inl t ↦ rw t at h
      | inr f ↦
          let k : P y × All P (insert x ys) = rw f at h in
          let (here, rest) = insert-All x ys k.1 in (here, (k.0, rest))
    ]

    -- Sorting keeps the elements.
    pub All-sort : (xs : List A) → All P xs → All P (sort xs)
    unfolding sort
    All-sort [] h = tt
    All-sort (x ∷ xs) h = All-insert x (sort xs) h.0 (All-sort xs h.1)

    pub sort-All : (xs : List A) → All P (sort xs) → All P xs
    unfolding sort
    sort-All [] h = tt
    sort-All (x ∷ xs) h = let (here, rest) = insert-All x (sort xs) h in (here, sort-All xs rest)

  -- Where the comparison is an order, sorting sorts.
  module _ (P : A → Type 0) (total : (x y : A) → P x → P y → le x y ≡ false → le y x ≡ true)
      (trans : (x y z : A) → P x → P y → P z → le x y ≡ true → le y z ≡ true → le x z ≡ true) where
    insert-Sorted : (x : A) (ys : List A) → P x → All P ys → Sorted ys → Sorted (insert x ys)
    insert-Sorted x [] p q h = (tt, tt)
    insert-Sorted x (y ∷ ys) p q h = elim (Bool-cases (le x y)) [
      | inl t ↦ rw t (
        (
          t,
          All-map₂ {P = P} {Q = λ z. le y z ≡ true} (λ z r k. trans x y z p q.0 r t k) ys q.1 h.0,
        ),
        h,
      )
      | inr f ↦ rw f (
        All-insert (λ z. le y z ≡ true) x ys (total x y p q.0 f) h.0,
        insert-Sorted x ys p q.1 h.1,
      )
    ]

    pub sort-Sorted : (xs : List A) → All P xs → Sorted (sort xs)
    unfolding sort
    sort-Sorted [] p = tt
    sort-Sorted (x ∷ xs) p = insert-Sorted x (sort xs) p.0 (All-sort P xs p.1) (sort-Sorted xs p.1)

  onto-Descending :
      (xs acc : List A)
      → Sorted xs
      → Descending acc
      → All (λ x. All (λ y. le y x ≡ true) acc) xs
      → Descending (reverse_onto xs acc)
  onto-Descending [] acc h d b = d
  onto-Descending (x ∷ xs) acc h d b =
      onto-Descending xs (x ∷ acc) h.1 (b.0, d)
        (All-map₂ {P = λ z. le x z ≡ true} {Q = λ z. All (λ y. le y z ≡ true) acc} (λ z p q. (p, q))
          xs h.0 b.1)

  pub reverse-Descending : (xs : List A) → Sorted xs → Descending (reverse xs)
  reverse-Descending xs h = onto-Descending xs [] h tt (none xs)
    where
      none : (xs : List A) → All (λ x. All (λ y. le y x ≡ true) []) xs
      none [] = tt
      none (x ∷ xs) = (tt, none xs)

module _ {ℓ} {A : Type ℓ} (P : A → Type 0) where
  onto-All : (xs acc : List A) → All P (reverse_onto xs acc) → All P xs × All P acc
  onto-All [] acc h = (tt, h)
  onto-All (x ∷ xs) acc h = let (rest, k) = onto-All xs (x ∷ acc) h in ((k.0, rest), k.1)

  All-onto : (xs acc : List A) → All P xs → All P acc → All P (reverse_onto xs acc)
  All-onto [] acc h k = k
  All-onto (x ∷ xs) acc h k = All-onto xs (x ∷ acc) h.1 (h.0, k)

  -- Reversing keeps the elements.
  pub reverse-All : (xs : List A) → All P (reverse xs) → All P xs
  reverse-All xs h = (onto-All xs [] h).0

  pub All-reverse : (xs : List A) → All P xs → All P (reverse xs)
  All-reverse xs h = All-onto xs [] h tt
