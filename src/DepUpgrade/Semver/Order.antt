-- ===== src/DepUpgrade/Semver/Order.antt =====
-- roster/dep-upgrade/semver.ts: the comparison of versions is a total order.
use Prim.Native.Nat.{compare, Ordering}
use native.Mathlib.Omega.{compare-eq}
use mathlib.Core.Path.{subst}
use dacs_agent_reference.Common.{
  ℕ, List, [], ◌∷◌, ◌≡◌, refl, sym, ap, ◌⊎◌, inl, inr, arith, true, false,
}
use dacs_agent_reference.DepUpgrade.Semver.{
  version_le, text_compare, Identifier, numeric, alphanumeric, SemVer, lexicographic,
  compare_identifier, or_else, compare_prerelease, compare_semver,
}

abbrev pub flip : Ordering → Ordering
flip Ordering.lt = Ordering.gt
flip Ordering.eq = Ordering.eq
flip Ordering.gt = Ordering.lt

-- What makes a comparison an order by a key: it calls equal what has the same key and only that,
-- the other way round the answer is the other, and it is transitive.
pub record IsOrder {A K : Type 0} (key : A → K) (cmp : A → A → Ordering) : Type 0 where
  pub same : (x : A) → cmp x x ≡ Ordering.eq
  pub equal : (x y : A) → cmp x y ≡ Ordering.eq → key x ≡ key y
  pub flips : (x y : A) → cmp y x ≡ flip (cmp x y)
  pub trans : (x y z : A) → cmp x y ≡ Ordering.lt → cmp y z ≡ Ordering.lt → cmp x z ≡ Ordering.lt

abbrev itself : {A : Type 0} → A → A
itself x = x

compare-IsOrder : IsOrder itself compare
compare-IsOrder = record {
  same = λ x. ground arith;
  equal = λ x y h. compare-eq x y h;
  flips = λ x y. ground arith;
  trans = λ x y z h k. ground arith;
}

or_else-eq : (o p : Ordering) → or_else o p ≡ Ordering.eq → (o ≡ Ordering.eq) × (p ≡ Ordering.eq)
or_else-eq Ordering.lt p h = cc
or_else-eq Ordering.eq p h = (refl, h)
or_else-eq Ordering.gt p h = cc

or_else-lt :
    (o p : Ordering)
    → or_else o p ≡ Ordering.lt
    → (o ≡ Ordering.lt) ⊎ ((o ≡ Ordering.eq) × (p ≡ Ordering.lt))
or_else-lt Ordering.lt p h = inl refl
or_else-lt Ordering.eq p h = inr (refl, h)
or_else-lt Ordering.gt p h = cc

or_else-flips :
    (o p : Ordering) {o' p' : Ordering}
    → o' ≡ flip o
    → p' ≡ flip p
    → or_else o' p' ≡ flip (or_else o p)
or_else-flips Ordering.lt p e f = rw e refl
or_else-flips Ordering.eq p e f = rw e f
or_else-flips Ordering.gt p e f = rw e refl

-- An order goes through one that is decided first.
module _ {A : Type 0} {cmp : A → A → Ordering} (order : IsOrder itself cmp) where
  step_trans :
      (x y z : A) (p q r : Ordering)
      → (p ≡ Ordering.lt → q ≡ Ordering.lt → r ≡ Ordering.lt)
      → or_else (cmp x y) p ≡ Ordering.lt
      → or_else (cmp y z) q ≡ Ordering.lt
      → or_else (cmp x z) r ≡ Ordering.lt
  step_trans x y z p q r later h k = elim (or_else-lt (cmp x y) p h) [
    | inl lt ↦ elim (or_else-lt (cmp y z) q k) [
      | inl lt' ↦ rw (order.trans x y z lt lt') refl
      | inr (eq', _) ↦
          let same = order.equal y z eq' in rw (subst (λ w. cmp x w ≡ Ordering.lt) same lt) refl
    ]
    | inr (eq, rest) ↦
        let same = order.equal x y eq in
        elim (or_else-lt (cmp y z) q k) [
          | inl lt' ↦ rw (subst (λ w. cmp w z ≡ Ordering.lt) (sym same) lt') refl
          | inr (eq', rest') ↦
              rw (subst (λ w. cmp w z ≡ Ordering.eq) (sym same) eq') (later rest rest')
        ]
  ]

  lexicographic-same : (xs : List A) → lexicographic cmp xs xs ≡ Ordering.eq
  unfolding lexicographic
  lexicographic-same [] = refl
  lexicographic-same (x ∷ xs) = rw (order.same x) (lexicographic-same xs)

  lexicographic-equal : (xs ys : List A) → lexicographic cmp xs ys ≡ Ordering.eq → xs ≡ ys
  unfolding lexicographic
  lexicographic-equal [] [] h = refl
  lexicographic-equal [] (y ∷ ys) h = cc
  lexicographic-equal (x ∷ xs) [] h = cc
  lexicographic-equal (x ∷ xs) (y ∷ ys) h =
      let (here, rest) = or_else-eq (cmp x y) _ h in
      rw (order.equal x y here, lexicographic-equal xs ys rest) refl

  lexicographic-flips : (xs ys : List A) → lexicographic cmp ys xs ≡ flip (lexicographic cmp xs ys)
  unfolding lexicographic
  lexicographic-flips [] [] = refl
  lexicographic-flips [] (y ∷ ys) = refl
  lexicographic-flips (x ∷ xs) [] = refl
  lexicographic-flips (x ∷ xs) (y ∷ ys) =
      or_else-flips (cmp x y) (lexicographic cmp xs ys) (order.flips x y)
        (lexicographic-flips xs ys)

  lexicographic_trans :
      (xs ys zs : List A)
      → lexicographic cmp xs ys ≡ Ordering.lt
      → lexicographic cmp ys zs ≡ Ordering.lt
      → lexicographic cmp xs zs ≡ Ordering.lt
  unfolding lexicographic
  lexicographic_trans [] [] [] h k = cc
  lexicographic_trans [] (y ∷ ys) [] h k = cc
  lexicographic_trans [] ys (z ∷ zs) h k = refl
  lexicographic_trans (x ∷ xs) [] zs h k = cc
  lexicographic_trans (x ∷ xs) (y ∷ ys) [] h k = cc
  lexicographic_trans (x ∷ xs) (y ∷ ys) (z ∷ zs) h k =
      step_trans x y z _ _ _ (lexicographic_trans xs ys zs) h k

  lexicographic-IsOrder : IsOrder itself (lexicographic cmp)
  lexicographic-IsOrder = record {
    same = lexicographic-same;
    equal = lexicographic-equal;
    flips = lexicographic-flips;
    trans = lexicographic_trans;
  }

text-IsOrder : IsOrder itself text_compare
text-IsOrder = lexicographic-IsOrder compare-IsOrder

identifier-equal : (x y : Identifier) → compare_identifier x y ≡ Ordering.eq → x ≡ y
identifier-equal (numeric m) (numeric n) h = ap numeric (compare-eq m n h)
identifier-equal (numeric m) (alphanumeric t) h = cc
identifier-equal (alphanumeric s) (numeric n) h = cc
identifier-equal (alphanumeric s) (alphanumeric t) h = ap alphanumeric (text-IsOrder.equal s t h)

identifier-flips : (x y : Identifier) → compare_identifier y x ≡ flip (compare_identifier x y)
identifier-flips (numeric m) (numeric n) = compare-IsOrder.flips m n
identifier-flips (numeric m) (alphanumeric t) = refl
identifier-flips (alphanumeric s) (numeric n) = refl
identifier-flips (alphanumeric s) (alphanumeric t) = text-IsOrder.flips s t

identifier-same : (x : Identifier) → compare_identifier x x ≡ Ordering.eq
identifier-same (numeric m) = compare-IsOrder.same m
identifier-same (alphanumeric s) = text-IsOrder.same s

identifier_trans :
    (x y z : Identifier)
    → compare_identifier x y ≡ Ordering.lt
    → compare_identifier y z ≡ Ordering.lt
    → compare_identifier x z ≡ Ordering.lt
identifier_trans (numeric l) (numeric m) (numeric n) h k = compare-IsOrder.trans l m n h k
identifier_trans (numeric l) y (alphanumeric t) h k = refl
identifier_trans (numeric l) (alphanumeric s) (numeric n) h k = cc
identifier_trans (alphanumeric s) (numeric m) z h k = cc
identifier_trans (alphanumeric s) (alphanumeric t) (numeric n) h k = cc
identifier_trans (alphanumeric s) (alphanumeric t) (alphanumeric u) h k =
    text-IsOrder.trans s t u h k

identifiers-IsOrder : IsOrder itself (lexicographic compare_identifier)
identifiers-IsOrder = lexicographic-IsOrder (record {
  same = identifier-same;
  equal = identifier-equal;
  flips = identifier-flips;
  trans = identifier_trans;
})

prerelease-equal : (xs ys : List Identifier) → compare_prerelease xs ys ≡ Ordering.eq → xs ≡ ys
unfolding compare_prerelease
prerelease-equal [] [] h = refl
prerelease-equal [] (y ∷ ys) h = cc
prerelease-equal (x ∷ xs) [] h = cc
prerelease-equal (x ∷ xs) (y ∷ ys) h = identifiers-IsOrder.equal (x ∷ xs) (y ∷ ys) h

prerelease-flips :
    (xs ys : List Identifier) → compare_prerelease ys xs ≡ flip (compare_prerelease xs ys)
unfolding compare_prerelease
prerelease-flips [] [] = refl
prerelease-flips [] (y ∷ ys) = refl
prerelease-flips (x ∷ xs) [] = refl
prerelease-flips (x ∷ xs) (y ∷ ys) = identifiers-IsOrder.flips (x ∷ xs) (y ∷ ys)

prerelease_trans :
    (xs ys zs : List Identifier)
    → compare_prerelease xs ys ≡ Ordering.lt
    → compare_prerelease ys zs ≡ Ordering.lt
    → compare_prerelease xs zs ≡ Ordering.lt
unfolding compare_prerelease
prerelease_trans [] [] zs h k = cc
prerelease_trans [] (y ∷ ys) zs h k = cc
prerelease_trans (x ∷ xs) [] [] h k = cc
prerelease_trans (x ∷ xs) [] (z ∷ zs) h k = cc
prerelease_trans (x ∷ xs) (y ∷ ys) [] h k = refl
prerelease_trans (x ∷ xs) (y ∷ ys) (z ∷ zs) h k =
    identifiers-IsOrder.trans (x ∷ xs) (y ∷ ys) (z ∷ zs) h k

prerelease-same : (xs : List Identifier) → compare_prerelease xs xs ≡ Ordering.eq
unfolding compare_prerelease
prerelease-same [] = refl
prerelease-same (x ∷ xs) = identifiers-IsOrder.same (x ∷ xs)

-- What the order of versions looks at.
abbrev pub precedence : SemVer → ℕ × ℕ × ℕ × List Identifier
precedence v = (v.major, v.minor, v.patch, v.prerelease)

-- `compareSemver` is a total order: versions compare equal just if their numbers and prerelease
-- identifiers agree, swapping the versions swaps the answer, and below is transitive.
pub compare_semver-IsOrder : IsOrder precedence compare_semver
unfolding compare_semver
compare_semver-IsOrder = record {
  same = λ a.
      rw (compare-IsOrder.same a.major, compare-IsOrder.same a.minor, compare-IsOrder.same a.patch)
        (prerelease-same a.prerelease);
  equal = λ a b h.
      let (major, h1) = or_else-eq _ _ h in
      let (minor, h2) = or_else-eq _ _ h1 in
      let (patch, h3) = or_else-eq _ _ h2 in
      rw
        (
          compare-eq a.major b.major major,
          compare-eq a.minor b.minor minor,
          compare-eq a.patch b.patch patch,
          prerelease-equal a.prerelease b.prerelease h3,
        )
        refl;
  flips = λ a b. or_else-flips _ _ (compare-IsOrder.flips a.major b.major) (
      or_else-flips _ _ (compare-IsOrder.flips a.minor b.minor) (
        or_else-flips _ _ (compare-IsOrder.flips a.patch b.patch)
          (prerelease-flips a.prerelease b.prerelease)));
  trans = λ a b c. step_trans compare-IsOrder a.major b.major c.major _ _ _ (
      step_trans compare-IsOrder a.minor b.minor c.minor _ _ _ (
        step_trans compare-IsOrder a.patch b.patch c.patch _ _ _
          (prerelease_trans a.prerelease b.prerelease c.prerelease)));
}

-- Versions with one precedence compare alike.
compare_semver-left :
    (a b c : SemVer) → precedence a ≡ precedence b → compare_semver a c ≡ compare_semver b c
unfolding compare_semver
compare_semver-left a b c e =
    rw (ap (λ p. p.0) e, ap (λ p. p.1) e, ap (λ p. p.2) e, ap (λ p. p.3) e) refl

compare_semver-right :
    (a b c : SemVer) → precedence b ≡ precedence c → compare_semver a b ≡ compare_semver a c
unfolding compare_semver
compare_semver-right a b c e =
    rw (ap (λ p. p.0) e, ap (λ p. p.1) e, ap (λ p. p.2) e, ap (λ p. p.3) e) refl

pub Ordering-cases : (o : Ordering) → (o ≡ Ordering.lt) ⊎ (o ≡ Ordering.eq) ⊎ (o ≡ Ordering.gt)
Ordering-cases Ordering.lt = inl refl
Ordering-cases Ordering.eq = inr (inl refl)
Ordering-cases Ordering.gt = inr (inr refl)

pub version_le-total : (a b : SemVer) → version_le a b ≡ false → version_le b a ≡ true
version_le-total a b h =
    let turn = compare_semver-IsOrder.flips a b in
    elim (Ordering-cases (compare_semver a b)) [
      | inl lt ↦ absurd (ground arith)
      | inr (inl eq) ↦ absurd (ground arith)
      | inr (inr gt) ↦ rw (turn, gt) refl
    ]

pub version_le_refl : (a : SemVer) → version_le a a ≡ true
version_le_refl a = rw (compare_semver-IsOrder.same a) refl

pub version_le_trans :
    (a b c : SemVer) → version_le a b ≡ true → version_le b c ≡ true → version_le a c ≡ true
version_le_trans a b c h k = elim (Ordering-cases (compare_semver a b)) [
  | inl lt ↦ elim (Ordering-cases (compare_semver b c)) [
    | inl lt' ↦ rw (compare_semver-IsOrder.trans a b c lt lt') refl
    | inr (inl eq') ↦
        rw (sym (compare_semver-right a b c (compare_semver-IsOrder.equal b c eq')), lt) refl
    | inr (inr gt') ↦ absurd (ground arith)
  ]
  | inr (inl eq) ↦ rw (compare_semver-left a b c (compare_semver-IsOrder.equal a b eq)) k
  | inr (inr gt) ↦ absurd (ground arith)
]
