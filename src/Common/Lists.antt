-- ===== src/Common/Lists.antt =====
-- Lists: predicates on all members, tests, and searches.
use Prim.Native.Nat.{ℕ, suc, ◌+◌}
use mathlib.Core.Path.{◌≡◌, refl, subst}
use mathlib.Core.Logic.{◌⊎◌, inl, inr}
use mathlib.Core.Bool.{Bool, true, false, ◌&&◌, ◌||◌}
use mathlib.Core.Option.{Option, none, some}
use mathlib.Core.List.{List, [], ◌∷◌, ◌++◌}
use native.Mathlib.Omega.{arith}
use dacs_agent_reference.Common.Tests.{if◌then◌else◌, Bool-cases}

module _ {ℓ} {A : Type ℓ} where
  abbrev pub length : List A → ℕ
  length [] = 0
  length (x ∷ xs) = suc (length xs)

  -- `Array.prototype.some`
  abbrev pub any : (A → Bool) → List A → Bool
  any p [] = false
  any p (x ∷ xs) = p x || any p xs

  -- `Array.prototype.every`
  abbrev pub every : (A → Bool) → List A → Bool
  every p [] = true
  every p (x ∷ xs) = p x && every p xs

  -- `Array.prototype.find`
  abbrev pub find : (A → Bool) → List A → Option A
  find p [] = none
  find p (x ∷ xs) = if p x then some x else find p xs

  -- the last element, as `xs[xs.length - 1]`
  abbrev pub last? : List A → Option A
  last? [] = none
  last? (x ∷ []) = some x
  last? (x ∷ y ∷ xs) = last? (y ∷ xs)

  abbrev pub is_empty : List A → Bool
  is_empty [] = true
  is_empty (x ∷ xs) = false

  pub length-append : (xs ys : List A) → length (xs ++ ys) ≡ length xs + length ys
  length-append [] ys = omega arith
  length-append (x ∷ xs) ys = omega (arith, length-append xs ys)

  pub append-eq-nil : (xs ys : List A) → xs ++ ys ≡ [] → (xs ≡ []) × (ys ≡ [])
  append-eq-nil [] ys h = (refl, h)
  append-eq-nil (x ∷ xs) ys h = cc

module _ {ℓ} {A : Type ℓ} (P : A → Type 0) where
  -- Every member has the property.
  abbrev pub All : List A → Type 0
  All [] = Unit
  All (x ∷ xs) = P x × All xs

  -- Some member has the property.
  abbrev pub Some : List A → Type 0
  Some [] = ⊥
  Some (x ∷ xs) = P x ⊎ Some xs

  pub All-append : (xs ys : List A) → All xs → All ys → All (xs ++ ys)
  All-append [] ys h k = k
  All-append (x ∷ xs) ys h k = (h.0, All-append xs ys h.1 k)

module _ {ℓ} {A : Type ℓ} (P : A → Type 0) (p : A → Bool) where
  pub any-Some : ((x : A) → p x ≡ true → P x) → (xs : List A) → any p xs ≡ true → Some P xs
  any-Some ok [] h = cc
  any-Some ok (x ∷ xs) h = elim (Bool-cases (p x)) [
    | inl here ↦ inl (ok x here)
    | inr there ↦ inr (any-Some ok xs (ground arith))
  ]

  pub Some-any : ((x : A) → P x → p x ≡ true) → (xs : List A) → Some P xs → any p xs ≡ true
  Some-any ok [] h = absurd h
  Some-any ok (x ∷ xs) (inl here) = ground (arith, ok x here)
  Some-any ok (x ∷ xs) (inr there) = ground (arith, Some-any ok xs there)

  pub every-All : ((x : A) → p x ≡ true → P x) → (xs : List A) → every p xs ≡ true → All P xs
  every-All ok [] h = tt
  every-All ok (x ∷ xs) h = (ok x (ground arith), every-All ok xs (ground arith))

  pub All-every : ((x : A) → P x → p x ≡ true) → (xs : List A) → All P xs → every p xs ≡ true
  All-every ok [] h = refl
  All-every ok (x ∷ xs) h = ground (arith, ok x h.0, All-every ok xs h.1)

  pub All-find : (xs : List A) {a : A} → All P xs → find p xs ≡ some a → P a
  All-find [] h e = cc
  All-find (x ∷ xs) {a} h e = elim (Bool-cases (p x)) [
    | inl here ↦ let same : x ≡ a = ground arith in rw (← same) h.0
    | inr there ↦ All-find xs h.1 (ground arith)
  ]

module _ {ℓ} {A : Type ℓ} where
  pub find-test : (p : A → Bool) (xs : List A) (a : A) → find p xs ≡ some a → p a ≡ true
  find-test p [] a h = cc
  find-test p (x ∷ xs) a h = ground (arith, find-test p xs a)

  pub All-map₂ :
      {P Q R : A → Type 0}
      → ((x : A) → P x → Q x → R x)
      → (xs : List A) → All P xs
      → All Q xs
      → All R xs
  All-map₂ f [] h k = tt
  All-map₂ f (x ∷ xs) h k = (f x h.0 k.0, All-map₂ f xs h.1 k.1)

  pub All-map : {P Q : A → Type 0} → ((x : A) → P x → Q x) → (xs : List A) → All P xs → All Q xs
  All-map f [] h = tt
  All-map f (x ∷ xs) h = (f x h.0, All-map f xs h.1)

  pub All-last? : (P : A → Type 0) (xs : List A) {a : A} → All P xs → last? xs ≡ some a → P a
  All-last? P [] h e = cc
  All-last? P (x ∷ []) {a} h e = let same : x ≡ a = ground arith in subst P same h.0
  All-last? P (x ∷ y ∷ xs) h e = All-last? P (y ∷ xs) h.1 e
