-- ===== src/DepUpgrade/Planner/Chosen.antt =====
-- The lists of roster/dep-upgrade/planner.ts: what a filter keeps, and the stable versions in order.
use mathlib.Core.Path.{Path, subst}
use dacs_agent_reference.Common.{
  Bool, true, false, some, List, [], ◌∷◌, ◌≡◌, inl, inr, ◌⊎◌, refl, sym, ap, ◌∙◌, arith, All,
  All-map, Some, if◌then◌else◌, Bool-cases, Option-cases,
}
use dacs_agent_reference.Common.Sort.{Ordered, Sorted, sort-Sorted, All-sort, sort-All}
use dacs_agent_reference.Common.Result.{Result, ok, bind-ok, ok_inj}
use dacs_agent_reference.DepUpgrade.Semver.{
  Text, SemVer, version_le, parse_semver, compare_versions, is_stable,
}
use dacs_agent_reference.DepUpgrade.Semver.Order.{version_le-total, version_le_trans}
use dacs_agent_reference.DepUpgrade.Planner.{
  filter, filter_by, every_by, versions_le, stable_sorted,
}

module _ {A : Type 0} (p : A → Result Text Bool) where
  -- A round of the filter: the test answers, and the rest is filtered.
  filter_by-cons :
      (x : A) (xs ys : List A)
      → filter_by p (x ∷ xs) ≡ ok ys
      → (others : List A) × ((filter_by p xs ≡ ok others)
          × (((p x ≡ ok true) × (ys ≡ x ∷ others)) ⊎ ((p x ≡ ok false) × (ys ≡ others))))
  filter_by-cons x xs ys h =
      let (keep, (e, k)) = bind-ok (p x) _ h in
      let (others, (f, l)) = bind-ok (filter_by p xs) _ k in (others, (f, split keep e (ok_inj l)))
    where
      split :
          {others : List A} (keep : Bool)
          → p x ≡ ok keep
          → (if keep then x ∷ others else others) ≡ ys
          → ((p x ≡ ok true) × (ys ≡ x ∷ others)) ⊎ ((p x ≡ ok false) × (ys ≡ others))
      split true e l = inl (e, sym l)
      split false e l = inr (e, sym l)

  -- What is kept passed the test, and is of the list.
  pub filter_by-All :
      (P : A → Type 0) (xs ys : List A)
      → All P xs
      → filter_by p xs ≡ ok ys
      → All (λ y. (p y ≡ ok true) × P y) ys
  filter_by-All P [] ys a h = subst (All (λ y. (p y ≡ ok true) × P y)) (ok_inj h) tt
  filter_by-All P (x ∷ xs) ys a h =
      let (others, (f, step)) = filter_by-cons x xs ys h in
      let rest = filter_by-All P xs others a.1 f in
      elim step [ inl (e, same) ↦ rw same ((e, a.0), rest) | inr (e, same) ↦ rw same rest ]

  -- What passes the test is kept.
  pub filter_by-kept :
      (Q : A → Type 0) (xs ys : List A)
      → filter_by p xs ≡ ok ys
      → All Q ys
      → All (λ x. p x ≡ ok true → Q x) xs
  filter_by-kept Q [] ys h q = tt
  filter_by-kept Q (x ∷ xs) ys h q =
      let (others, (f, step)) = filter_by-cons x xs ys h in
      elim step [
        | inl (e, same) ↦
            let k : All Q (x ∷ others) = subst (All Q) same q in
            ((λ _. k.0), filter_by-kept Q xs others f k.1)
        | inr (e, same) ↦
            ((λ t. absurd (ground arith)), filter_by-kept Q xs others f (subst (All Q) same q))
      ]

  -- The order stays.
  pub filter_by-Ordered :
      (R : A → A → Type 0) (xs ys : List A) → Ordered R xs → filter_by p xs ≡ ok ys → Ordered R ys
  filter_by-Ordered R [] ys o h = subst (Ordered R) (ok_inj h) tt
  filter_by-Ordered R (x ∷ xs) ys o h =
      let (others, (f, step)) = filter_by-cons x xs ys h in
      let rest = filter_by-Ordered R xs others o.1 f in
      elim step [
        | inl (e, same) ↦ rw same (
          All-map {P = λ y. (p y ≡ ok true) × R x y} {Q = R x} (λ y k. k.1) others
              (filter_by-All (R x) xs others o.0 f),
          rest,
        )
        | inr (e, same) ↦ rw same rest
      ]

  pub every_by-All : (xs : List A) → every_by p xs ≡ ok true → All (λ x. p x ≡ ok true) xs
  every_by-All [] h = tt
  every_by-All (x ∷ xs) h =
      let (b, (e, k)) = bind-ok (p x) _ h in
      elim (Bool-cases b) [
        | inl t ↦ (e ∙ ap ok t, every_by-All xs (rw t at k))
        | inr f ↦
            let refused : Path (Result Text Bool) (ok false) (ok true) = rw f at k in
            absurd (ground arith)
      ]

  pub All-every_by : (xs : List A) → All (λ x. p x ≡ ok true) xs → every_by p xs ≡ ok true
  All-every_by [] h = refl
  All-every_by (x ∷ xs) h = rw (h.0, every_by) (All-every_by xs h.1)

-- A stable version of the list.
abbrev pub IsPublished : List Text → Text → Type 0
IsPublished versions v = (is_stable v ≡ true) × Some (λ u. u ≡ v) versions

stable-All :
    (all versions : List Text)
    → All (λ v. Some (λ u. u ≡ v) all) versions
    → All (IsPublished all) (filter is_stable versions)
stable-All all [] h = tt
stable-All all (v ∷ versions) h = elim (Bool-cases (is_stable v)) [
  | inl t ↦ rw (t, filter) ((t, h.0), stable-All all versions h.1)
  | inr f ↦ rw (f, filter) (stable-All all versions h.1)
]

All-Some : (versions : List Text) → All (λ v. Some (λ u. u ≡ v) versions) versions
All-Some [] = tt
All-Some (v ∷ versions) = (
  inl refl,
  All-map {P = λ w. Some (λ u. u ≡ w) versions} (λ w k. inr k) versions (All-Some versions),
)

filter-kept :
    (Q : Text → Type 0) (versions : List Text)
    → All Q (filter is_stable versions)
    → All (λ v. is_stable v ≡ true → Q v) versions
filter-kept Q [] h = tt
filter-kept Q (v ∷ versions) h = elim (Bool-cases (is_stable v)) [
  | inl t ↦
      let k : Q v × All Q (filter is_stable versions) = rw (t, filter) at h in
      ((λ _. k.0), filter-kept Q versions k.1)
  | inr f ↦ ((λ t. absurd (ground arith)), filter-kept Q versions (rw (f, filter) at h))
]

is_stable-parse : (v : Text) → is_stable v ≡ true → (p : SemVer) × (parse_semver v ≡ some p)
unfolding is_stable
is_stable-parse v h = elim (Option-cases (parse_semver v)) [
  | inl e ↦ let k : false ≡ true = rw (e, is_stable) at h in absurd (ground arith)
  | inr r ↦ r
]

pub versions_le-parsed :
    (u v : Text) (p q : SemVer)
    → parse_semver u ≡ some p
    → parse_semver v ≡ some q
    → versions_le u v ≡ version_le p q
unfolding compare_versions
versions_le-parsed u v p q e f = rw (versions_le, compare_versions, e, f) refl

module _ (versions : List Text) where
  pub stable_sorted-All : All (IsPublished versions) (stable_sorted versions)
  unfolding stable_sorted
  stable_sorted-All =
      All-sort versions_le (IsPublished versions) (filter is_stable versions)
        (stable-All versions versions (All-Some versions))

  pub stable_sorted-kept :
      (Q : Text → Type 0)
      → All Q (stable_sorted versions)
      → All (λ v. is_stable v ≡ true → Q v) versions
  unfolding stable_sorted
  stable_sorted-kept Q h =
      filter-kept Q versions (sort-All versions_le Q (filter is_stable versions) h)

  pub stable_sorted-Sorted : Sorted versions_le (stable_sorted versions)
  unfolding stable_sorted
  stable_sorted-Sorted =
      sort-Sorted versions_le (IsPublished versions)
        (λ u v p q h.
          let (a, e) = is_stable-parse u p.0 in
          let (b, f) = is_stable-parse v q.0 in
          versions_le-parsed v u b a f e
          ∙ version_le-total a b (sym (versions_le-parsed u v a b e f) ∙ h))
        (λ u v w p q r h k.
          let (a, e) = is_stable-parse u p.0 in
          let (b, f) = is_stable-parse v q.0 in
          let (c, g) = is_stable-parse w r.0 in
          versions_le-parsed u w a c e g
          ∙ version_le_trans a b c (sym (versions_le-parsed u v a b e f) ∙ h)
              (sym (versions_le-parsed v w b c f g) ∙ k))
        (filter is_stable versions) (stable-All versions versions (All-Some versions))
