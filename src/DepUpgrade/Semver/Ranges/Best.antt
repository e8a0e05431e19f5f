-- ===== src/DepUpgrade/Semver/Ranges/Best.antt =====
-- The lowest and the highest version of a list that satisfies a range of
-- roster/dep-upgrade/semver.ts.
use Prim.Native.Nat.{Ordering}
use mathlib.Core.Path.{subst}
use dacs_agent_reference.Common.{
  true, false, Option, none, some, List, [], ◌∷◌, ◌≡◌, ◌⊎◌, inl, inr, refl, arith, All, Some,
  All-map, Option-cases,
}
use dacs_agent_reference.Common.Sort.{
  Ordered, Sorted, reverse, sort-Sorted, All-sort, sort-All, reverse-Descending, reverse-All,
  All-reverse,
}
use dacs_agent_reference.Common.Result.{Result-cases, ok_inj, ok}
use dacs_agent_reference.DepUpgrade.Semver.{
  version_le, Text, SemVer, parse_semver, compare_semver, compare_versions,
}
use dacs_agent_reference.DepUpgrade.Semver.Order.{
  Ordering-cases, version_le-total, version_le_refl, version_le_trans,
}
use dacs_agent_reference.DepUpgrade.Semver.Ranges.{
  Parsed, parse_all, parsed_le, sorted_parsed, first_satisfying, min_satisfying, max_satisfying,
  satisfies,
}

-- What the loop over the versions finds.
module _ (R : Parsed → Parsed → Type 0) (P : Parsed → Type 0) (range : Text) where
  Found : List Parsed → Option Text → Type 0
  Found xs none = All (λ y. satisfies y.raw range ≡ ok false) xs
  Found xs (some w) =
      (x : Parsed) × ((x.raw ≡ w)
        × P x
        × (satisfies w range ≡ ok true)
        × All (λ y. satisfies y.raw range ≡ ok true → R x y) xs)

  Found-cons :
      (x : Parsed) (xs : List Parsed) (o : Option Text)
      → satisfies x.raw range ≡ ok false
      → Found xs o
      → Found (x ∷ xs) o
  unfolding Found
  Found-cons x xs none s f = (s, f)
  Found-cons x xs (some w) s (y, (same, py, good, rest)) =
      (y, (same, py, good, ((λ t. absurd (ground arith)), rest)))

  first_satisfying-Found :
      (xs : List Parsed) (o : Option Text)
      → ((x : Parsed) → R x x)
      → Ordered R xs
      → All P xs
      → first_satisfying range xs ≡ ok o
      → Found xs o
  unfolding first_satisfying Found
  first_satisfying-Found [] o r d p h = subst (Found []) (ok_inj h) tt
  first_satisfying-Found (x ∷ xs) o r d p h = elim (Result-cases (satisfies x.raw range)) [
    | inl (e, s) ↦ absurd (ground arith)
    | inr (true, s) ↦
        let here : some x.raw ≡ o = ok_inj (rw (s, first_satisfying) at h) in
        subst (Found (x ∷ xs)) here
          (x, (refl, p.0, s, (λ t. r x, All-map {P = R x} (λ y q t. q) xs d.0)))
    | inr (false, s) ↦
        Found-cons x xs o s (first_satisfying-Found xs o r d.1 p.1 (rw (s, first_satisfying) at h))
  ]

-- The version of the list that is read, and that it is of the list.
abbrev IsOf : List Text → Parsed → Type 0
IsOf versions x = (parse_semver x.raw ≡ some x.parsed) × Some (λ v. v ≡ x.raw) versions

IsOf-cons : (v : Text) (versions : List Text) (x : Parsed) → IsOf versions x → IsOf (v ∷ versions) x
IsOf-cons v versions x h = (h.0, inr h.1)

parse_all-IsOf : (versions : List Text) → All (IsOf versions) (parse_all versions)
parse_all-IsOf [] = tt
parse_all-IsOf (v ∷ versions) =
    let rest =
      All-map {P = IsOf versions} {Q = IsOf (v ∷ versions)} (IsOf-cons v versions)
        (parse_all versions) (parse_all-IsOf versions) in
    elim (Option-cases (parse_semver v)) [
      | inl e ↦ rw (e, parse_all) rest
      | inr (p, e) ↦ rw (e, parse_all) ((e, inl refl), rest)
    ]

-- What holds of every version that is read, and of every text that is not, holds of the list.
parse_all-All :
    (P : Parsed → Type 0) (Q : Text → Type 0) (versions : List Text)
    → ((v : Text) → parse_semver v ≡ none → Q v)
    → ((x : Parsed) → parse_semver x.raw ≡ some x.parsed → P x → Q x.raw)
    → All P (parse_all versions)
    → All Q versions
parse_all-All P Q [] bad good h = tt
parse_all-All P Q (v ∷ versions) bad good h = elim (Option-cases (parse_semver v)) [
  | inl e ↦ (bad v e, parse_all-All P Q versions bad good (rw (e, parse_all) at h))
  | inr (p, e) ↦
      let k : P (record { raw = v; parsed = p }) × All P (parse_all versions) =
        rw (e, parse_all) at h in
      (good (record { raw = v; parsed = p }) e k.0, parse_all-All P Q versions bad good k.1)
]

satisfies-unread : (v range : Text) → parse_semver v ≡ none → satisfies v range ≡ ok false
unfolding satisfies
satisfies-unread v range e = rw (e, satisfies) refl

-- a ≤ b, as `compareVersions` tells it.
abbrev pub NotAbove : Text → Text → Type 0
NotAbove a b = (compare_versions a b ≡ ok Ordering.lt) ⊎ (compare_versions a b ≡ ok Ordering.eq)

NotAbove-le :
    (a b : Text) (p q : SemVer)
    → parse_semver a ≡ some p
    → parse_semver b ≡ some q
    → version_le p q ≡ true
    → NotAbove a b
unfolding compare_versions
NotAbove-le a b p q e f le = elim (Ordering-cases (compare_semver p q)) [
  | inl lt ↦ inl (rw (e, f, lt, compare_versions) refl)
  | inr (inl eq) ↦ inr (rw (e, f, eq, compare_versions) refl)
  | inr (inr gt) ↦ absurd (ground arith)
]

-- The answer is `null` and no version of the list satisfies the range, or it is one that does, and
-- it is related to all that do.
abbrev pub IsBest : (Text → Text → Type 0) → List Text → Text → Option Text → Type 0
IsBest R versions range none = All (λ v. satisfies v range ≡ ok false) versions
IsBest R versions range (some w) =
    Some (λ v. v ≡ w) versions
    × (satisfies w range ≡ ok true)
    × All (λ v. satisfies v range ≡ ok true → R w v) versions

-- From the sorted list to the list.
Found-IsBest :
    (R : Parsed → Parsed → Type 0) (S : Text → Text → Type 0) (versions : List Text) (range : Text)
    (xs : List Parsed) (o : Option Text)
    → ((P : Parsed → Type 0) → All P xs → All P (parse_all versions))
    → ((x y : Parsed)
        → parse_semver x.raw ≡ some x.parsed
        → parse_semver y.raw ≡ some y.parsed
        → R x y
        → S x.raw y.raw)
    → Found R (IsOf versions) range xs o
    → IsBest S versions range o
unfolding Found
Found-IsBest R S versions range xs none same rel f =
    parse_all-All (λ y. satisfies y.raw range ≡ ok false) (λ v. satisfies v range ≡ ok false)
      versions (λ v e. satisfies-unread v range e) (λ x e k. k) (same _ f)
Found-IsBest R S versions range xs (some w) same rel (x, (is_w, of, good, best)) = (
  subst (λ u. Some (λ v. v ≡ u) versions) is_w of.1,
  good,
  parse_all-All (λ y. satisfies y.raw range ≡ ok true → R x y)
      (λ v. satisfies v range ≡ ok true → S w v) versions
      (λ v e sat. absurd (let out = satisfies-unread v range e in ground arith))
      (λ y e k sat. subst (λ u. S u y.raw) is_w (rel x y of.0 e (k sat))) (same _ best),
)

module _ (versions : List Text) (range : Text) where
  sorted : Sorted parsed_le (sorted_parsed versions)
  sorted =
      sort-Sorted parsed_le (IsOf versions) (λ x y p q. version_le-total x.parsed y.parsed)
        (λ x y z p q r. version_le_trans x.parsed y.parsed z.parsed) (parse_all versions)
        (parse_all-IsOf versions)

  sorted-IsOf : All (IsOf versions) (sorted_parsed versions)
  sorted-IsOf = All-sort parsed_le (IsOf versions) (parse_all versions) (parse_all-IsOf versions)

  -- When `minSatisfying` returns, its answer is `null` and no version of the list satisfies the
  -- range, or it is a version of the list that satisfies it, and is not above any other that does.
  pub min_satisfying-IsBest :
      (o : Option Text) → min_satisfying versions range ≡ ok o → IsBest NotAbove versions range o
  unfolding min_satisfying
  min_satisfying-IsBest o h =
      Found-IsBest (λ x y. parsed_le x y ≡ true) NotAbove versions range (sorted_parsed versions) o
        (λ P k. sort-All parsed_le P (parse_all versions) k)
        (λ x y e f le. NotAbove-le x.raw y.raw x.parsed y.parsed e f le)
        (first_satisfying-Found (λ x y. parsed_le x y ≡ true) (IsOf versions) range
          (sorted_parsed versions) o (λ x. version_le_refl x.parsed) sorted sorted-IsOf h)

  -- When `maxSatisfying` returns, its answer is `null` and no version of the list satisfies the
  -- range, or it is a version of the list that satisfies it, and no other that does is above it.
  pub max_satisfying-IsBest :
      (o : Option Text)
      → max_satisfying versions range ≡ ok o
      → IsBest (λ w v. NotAbove v w) versions range o
  unfolding max_satisfying
  max_satisfying-IsBest o h =
      Found-IsBest (λ x y. parsed_le y x ≡ true) (λ w v. NotAbove v w) versions range
        (reverse (sorted_parsed versions)) o
        (λ P k.
          sort-All parsed_le P (parse_all versions) (reverse-All P (sorted_parsed versions) k))
        (λ x y e f le. NotAbove-le y.raw x.raw y.parsed x.parsed f e le)
        (first_satisfying-Found (λ x y. parsed_le y x ≡ true) (IsOf versions) range
          (reverse (sorted_parsed versions)) o (λ x. version_le_refl x.parsed)
          (reverse-Descending parsed_le (sorted_parsed versions) sorted)
          (All-reverse (IsOf versions) (sorted_parsed versions) sorted-IsOf) h)
