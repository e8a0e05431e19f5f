-- ===== src/DepUpgrade/Planner/Nearest.antt =====
-- How near the fixes of roster/dep-upgrade/planner.ts are.
use mathlib.Core.Path.{subst}
use dacs_agent_reference.Common.{
  ℕ, String, Bool, true, false, not, Option, none, some, List, [], ◌∷◌, ◌≡◌, ◌≢◌, inl, inr, refl,
  sym, ap, ◌∙◌, arith, All, All-map, All-map₂, All-append, if◌then◌else◌, Bool-cases, Option-cases,
  is_empty, ◌==◌, last?,
}
use dacs_agent_reference.Common.Sort.{Ordered}
use dacs_agent_reference.Common.Result.{ok, bind-ok, ok_inj}
use dacs_agent_reference.DepUpgrade.Semver.{
  Text, parse_semver, compare_versions, is_stable, major_of,
}
use dacs_agent_reference.DepUpgrade.Semver.Order.{version_le_refl}
use dacs_agent_reference.DepUpgrade.Semver.Ranges.{max_satisfying}
use dacs_agent_reference.DepUpgrade.Planner.{
  DepEntry, Packument, Advisory, UpgradeKind, UpgradeItem, UpgradePlan, filter_by, versions_le,
  stable_sorted, resolve_current_version, affects, is_candidate, has_major, item_of, fix_item,
  fix_from, plan_fix, plan_outdated, plan_major, plan_maintenance, plan_current, is_next_major,
  build_plan, propose_outdated, propose_major, plan_package, plan_resolved,
}
use dacs_agent_reference.DepUpgrade.Planner.Fix.{IsFix, IsFix-is_candidate}
use dacs_agent_reference.DepUpgrade.Planner.Chosen.{
  filter_by-All, filter_by-kept, filter_by-Ordered, stable_sorted-kept, stable_sorted-Sorted,
  versions_le-parsed,
}
use dacs_agent_reference.DepUpgrade.Planner.Safe.{build_plan-All}

-- How an item compares with another fix.
abbrev pub Beats : Text → Text → Bool → Text → Type 0
Beats current target false v =
    (major_of target ≡ major_of current)
    × (major_of v ≡ major_of current → versions_le target v ≡ true)
Beats current target true v = (major_of v ≢ major_of current) × (versions_le target v ≡ true)

-- the item beats every published fix
abbrev pub BeatsAll : List Text → List Advisory → UpgradeItem → Type 0
BeatsAll versions known item =
    All
      (λ v.
        is_stable v ≡ true
        → IsFix known item.current_version v
        → Beats item.current_version item.target_version item.breaking v)
      versions

versions_le_refl : (v : Text) → versions_le v v ≡ true
unfolding compare_versions
versions_le_refl v = elim (Option-cases (parse_semver v)) [
  | inl e ↦ rw (versions_le, compare_versions, e) refl
  | inr (p, e) ↦ versions_le-parsed v v p p e e ∙ version_le_refl p
]

All-Unit : (vs : List Text) → All (λ v. Unit {0}) vs
All-Unit [] = tt
All-Unit (v ∷ vs) = (tt, All-Unit vs)

has_major-major_of : (m : ℕ) (v : Text) → has_major m v ≡ ok true → major_of v ≡ ok m
has_major-major_of m v h =
    let (n, (e, k)) = bind-ok (major_of v) _ h in e ∙ ap ok (same n (ok_inj k))
  where
    same : (n : ℕ) → (n == m) ≡ true → n ≡ m
    same n t = ground arith

major_of-has_major : (m : ℕ) (v : Text) → major_of v ≡ ok m → has_major m v ≡ ok true
major_of-has_major m v h = rw (has_major, h) (ap ok same)
  where
    same : (m == m) ≡ true
    same = ground arith

module _ (dep : DepEntry) (current : Text) (active : List Advisory) where
  -- The item that is picked beats every candidate.
  fix_item-Beats :
      (m : ℕ) (nearest : Text) (rest same_major : List Text)
      → major_of current ≡ ok m
      → Ordered (λ x y. versions_le x y ≡ true) (nearest ∷ rest)
      → filter_by (has_major m) (nearest ∷ rest) ≡ ok same_major
      → let item = fix_item dep current active same_major nearest in
        All (λ v. Beats current item.target_version item.breaking v) (nearest ∷ rest)
  unfolding fix_item
  fix_item-Beats m nearest rest [] e o f =
      let apart = filter_by-kept (has_major m) (λ v. ⊥) (nearest ∷ rest) [] f tt in
      let below : All (λ v. versions_le nearest v ≡ true) (nearest ∷ rest) =
        (versions_le_refl nearest, o.0) in
      All-map₂ {P = λ v. has_major m v ≡ ok true → ⊥} {Q = λ v. versions_le nearest v ≡ true}
        (λ v p q. ((λ same. p (major_of-has_major m v (same ∙ e))), q)) (nearest ∷ rest) apart below
  fix_item-Beats m nearest rest (target ∷ others) e o f =
      let kept =
        filter_by-All (has_major m) (λ v. Unit {0}) (nearest ∷ rest) (target ∷ others)
          (All-Unit (nearest ∷ rest)) f in
      let order =
        filter_by-Ordered (has_major m) (λ x y. versions_le x y ≡ true) (nearest ∷ rest)
          (target ∷ others) o f in
      let below : All (λ v. versions_le target v ≡ true) (target ∷ others) =
        (versions_le_refl target, order.0) in
      All-map {P = λ v. has_major m v ≡ ok true → versions_le target v ≡ true}
        (λ v p. (
          has_major-major_of m target kept.0.0 ∙ sym e,
          λ same. p (major_of-has_major m v (same ∙ e)),
        ))
        (nearest ∷ rest)
        (filter_by-kept (has_major m) (λ v. versions_le target v ≡ true) (nearest ∷ rest)
          (target ∷ others) f below)

-- What is claimed of an item: if it is a fix, it beats every published fix of its package.
abbrev pub IsNearest : (String → Option Packument) → (String → List Advisory) → UpgradeItem → Type 0
IsNearest packuments advisories item =
    item.kind ≡ UpgradeKind.security
    → (packument : Packument) × ((packuments item.name ≡ some packument)
        × BeatsAll packument.versions (advisories item.name) item)

-- an item of another kind, that is proposed if a test holds
other_if :
    (P : UpgradeItem → Type 0) (good : Bool) (item : UpgradeItem)
    → P item
    → All P (if good then item ∷ [] else [])
other_if P true item h = (h, tt)
other_if P false item h = tt

module _ (packuments : String → Option Packument) (advisories : String → List Advisory)
    (dep : DepEntry) (packument : Packument) (known : packuments dep.name ≡ some packument)
    (current : Text) where
  abbrev Nearest : UpgradePlan → Type 0
  Nearest p = All (IsNearest packuments advisories) p.items

  -- The item's own fields, once it is picked.
  abbrev BeatsPublished : UpgradeItem → Type 0
  BeatsPublished item =
      All
        (λ w.
          is_stable w ≡ true
          → is_candidate (advisories dep.name) current w ≡ ok true
          → Beats current item.target_version item.breaking w)
        packument.versions

  fix_item-IsNearest :
      (active : List Advisory) (same_major : List Text) (v : Text)
      → BeatsPublished (fix_item dep current active same_major v)
      → IsNearest packuments advisories (fix_item dep current active same_major v)
  unfolding fix_item
  fix_item-IsNearest active [] v h _ = (
    packument,
    (
      known,
      All-map
          {P = λ w.
            is_stable w ≡ true
            → is_candidate (advisories dep.name) current w ≡ ok true
            → Beats current v true w}
          (λ w q s f. q s (IsFix-is_candidate (advisories dep.name) current w f)) packument.versions
          h,
    ),
  )
  fix_item-IsNearest active (t ∷ ts) v h _ = (
    packument,
    (
      known,
      All-map
          {P = λ w.
            is_stable w ≡ true
            → is_candidate (advisories dep.name) current w ≡ ok true
            → Beats current t false w}
          (λ w q s f. q s (IsFix-is_candidate (advisories dep.name) current w f)) packument.versions
          h,
    ),
  )

  fix_from-Nearest :
      (active : List Advisory) (candidates : List Text) (plan : UpgradePlan)
      → Ordered (λ x y. versions_le x y ≡ true) candidates
      → filter_by (is_candidate (advisories dep.name) current) (stable_sorted packument.versions)
        ≡ ok candidates
      → fix_from dep current active candidates ≡ ok plan
      → Nearest plan
  unfolding fix_from
  fix_from-Nearest active [] plan o c h = subst Nearest (ok_inj h) tt
  fix_from-Nearest active (v ∷ vs) plan o c h =
      let (m, (e, k)) = bind-ok (major_of current) _ h in
      let (same_major, (f, l)) = bind-ok (filter_by (has_major m) (v ∷ vs)) _ k in
      let item = fix_item dep current active same_major v in
      let beats =
        stable_sorted-kept packument.versions
          (λ w.
            is_candidate (advisories dep.name) current w ≡ ok true
            → Beats current item.target_version item.breaking w)
          (filter_by-kept (is_candidate (advisories dep.name) current)
            (Beats current item.target_version item.breaking) (stable_sorted packument.versions)
            (v ∷ vs) c (fix_item-Beats dep current active m v vs same_major e o f)) in
      subst Nearest (ok_inj l) (fix_item-IsNearest active same_major v beats, tt)

  plan_fix-Nearest :
      (active : List Advisory) (plan : UpgradePlan)
      → plan_fix dep (stable_sorted packument.versions) current (advisories dep.name) active
        ≡ ok plan
      → Nearest plan
  unfolding plan_fix
  plan_fix-Nearest active plan h =
      let test = is_candidate (advisories dep.name) current in
      let (candidates, (e, k)) = bind-ok (filter_by test (stable_sorted packument.versions)) _ h in
      fix_from-Nearest active candidates plan
        (filter_by-Ordered test (λ x y. versions_le x y ≡ true) (stable_sorted packument.versions)
          candidates (stable_sorted-Sorted packument.versions) e)
        e k

  -- The other kinds of item: nothing is claimed.
  propose_outdated-Nearest :
      (o : Option Text) (items : List UpgradeItem)
      → propose_outdated dep current (advisories dep.name) o ≡ ok items
      → All (IsNearest packuments advisories) items
  unfolding propose_outdated
  propose_outdated-Nearest none items h =
      subst (All (IsNearest packuments advisories)) (ok_inj h) tt
  propose_outdated-Nearest (some v) items h =
      let (good, (e, k)) = bind-ok (is_candidate (advisories dep.name) current v) _ h in
      subst (All (IsNearest packuments advisories)) (ok_inj k) (
        other_if (IsNearest packuments advisories) good
          (item_of dep UpgradeKind.outdated current v false []) (λ q. absurd (ground arith)))

  propose_major-Nearest :
      (o : Option Text) (items : List UpgradeItem)
      → propose_major dep current (advisories dep.name) o ≡ ok items
      → All (IsNearest packuments advisories) items
  unfolding propose_major
  propose_major-Nearest none items h = subst (All (IsNearest packuments advisories)) (ok_inj h) tt
  propose_major-Nearest (some v) items h =
      let (good, (e, k)) = bind-ok (is_next_major (advisories dep.name) current v) _ h in
      subst (All (IsNearest packuments advisories)) (ok_inj k) (
        other_if (IsNearest packuments advisories) good
          (item_of dep UpgradeKind.next_major current v true []) (λ q. absurd (ground arith)))

  plan_major-Nearest :
      (next : Bool) (items : List UpgradeItem)
      → plan_major next dep (stable_sorted packument.versions) current (advisories dep.name)
        ≡ ok items
      → All (IsNearest packuments advisories) items
  unfolding plan_major
  plan_major-Nearest false items h = subst (All (IsNearest packuments advisories)) (ok_inj h) tt
  plan_major-Nearest true items h =
      propose_major-Nearest (last? (stable_sorted packument.versions)) items h

  plan_maintenance-Nearest :
      (next : Bool) (plan : UpgradePlan)
      → plan_maintenance next dep (stable_sorted packument.versions) (advisories dep.name) current
        ≡ ok plan
      → Nearest plan
  unfolding plan_maintenance plan_outdated
  plan_maintenance-Nearest next plan h =
      let stable = stable_sorted packument.versions in
      let (inside, (e, k)) = bind-ok (plan_outdated dep stable current (advisories dep.name)) _ h in
      let (latest, (_, i)) = bind-ok (max_satisfying stable dep.range) _ e in
      let (beyond, (f, l)) =
        bind-ok (plan_major next dep stable current (advisories dep.name)) _ k in
      subst Nearest (ok_inj l) (
        All-append (IsNearest packuments advisories) inside beyond
          (propose_outdated-Nearest latest inside i) (plan_major-Nearest next beyond f))

  plan_current-Nearest :
      (next : Bool) (plan : UpgradePlan)
      → plan_current next dep (stable_sorted packument.versions) (advisories dep.name) current
        ≡ ok plan
      → Nearest plan
  unfolding plan_current
  plan_current-Nearest next plan h =
      let (active, (e, k)) = bind-ok (filter_by (affects current) (advisories dep.name)) _ h in
      elim (Bool-cases (not (is_empty active))) [
        | inl t ↦ plan_fix-Nearest active plan (rw t at k)
        | inr f ↦ plan_maintenance-Nearest next plan (rw f at k)
      ]

plan_package-Nearest :
    (packuments : String → Option Packument) (advisories : String → List Advisory) (next : Bool)
    (dep : DepEntry) (o : Option Packument) (plan : UpgradePlan)
    → packuments dep.name ≡ o
    → plan_package next dep (advisories dep.name) o ≡ ok plan
    → All (IsNearest packuments advisories) plan.items
unfolding plan_package plan_resolved
plan_package-Nearest packuments advisories next dep none plan known h =
    subst (λ p. All (IsNearest packuments advisories) p.items) (ok_inj h) tt
plan_package-Nearest packuments advisories next dep (some packument) plan known h =
    let (current, (e, k)) = bind-ok (resolve_current_version dep packument) _ h in
    resolved_nearest current k
  where
    resolved_nearest :
        (current : Option Text)
        → plan_resolved next dep packument (advisories dep.name) current ≡ ok plan
        → All (IsNearest packuments advisories) plan.items
    resolved_nearest none k =
        subst (λ p. All (IsNearest packuments advisories) p.items) (ok_inj k) tt
    resolved_nearest (some v) k =
        plan_current-Nearest packuments advisories dep packument known v next plan k

-- A security upgrade of a plan that `buildPlan` returns is the nearest one: every published stable
-- version that is above the current one and clears all advisories is not below the target, where
-- the upgrade keeps the major number only against those that keep it too; and an upgrade is
-- marked as breaking just when none of them keeps the major number.
pub build_plan-IsNearest :
    (locale_le : String → String → Bool) (packuments : String → Option Packument)
    (advisories : String → List Advisory) (next : Bool) (deps : List DepEntry) (plan : UpgradePlan)
    → build_plan locale_le next packuments advisories deps ≡ ok plan
    → All (IsNearest packuments advisories) plan.items
build_plan-IsNearest locale_le packuments advisories next deps plan h =
    build_plan-All packuments advisories locale_le (IsNearest packuments advisories) next deps plan
      (λ dep p e.
        plan_package-Nearest packuments advisories next dep (packuments dep.name) p refl e)
      h
