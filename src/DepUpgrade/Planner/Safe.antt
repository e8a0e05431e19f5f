-- ===== src/DepUpgrade/Planner/Safe.antt =====
-- What every upgrade that roster/dep-upgrade/planner.ts proposes is worth.
use mathlib.Core.Path.{subst}
use dacs_agent_reference.Common.{
  String, Bool, true, false, not, Option, none, some, List, [], ◌∷◌, ◌≡◌, inl, inr, refl, ap, ◌∙◌,
  All, All-map, All-append, All-last?, Some, if◌then◌else◌, Bool-cases, is_empty, last?,
}
use dacs_agent_reference.Common.Sort.{All-sort}
use dacs_agent_reference.Common.Result.{ok, bind-ok, ok_inj}
use dacs_agent_reference.DepUpgrade.Semver.{Text, major_of}
use dacs_agent_reference.DepUpgrade.Semver.Ranges.{max_satisfying}
use dacs_agent_reference.DepUpgrade.Semver.Ranges.Best.{IsBest, NotAbove, max_satisfying-IsBest}
use dacs_agent_reference.DepUpgrade.Planner.{
  DepEntry, Packument, Advisory, UpgradeKind, UpgradeItem, UpgradePlan, filter_by, stable_sorted,
  resolve_current_version, affects, is_candidate, has_major, item_of, fix_item, fix_from, plan_fix,
  plan_outdated, is_next_major, plan_major, plan_maintenance, plan_current, plan_dep, item_le,
  plan_deps, build_plan, propose_outdated, propose_major, plan_package, plan_resolved,
}
use dacs_agent_reference.DepUpgrade.Planner.Fix.{IsFix, is_candidate-IsFix, is_next_major-IsFix}
use dacs_agent_reference.DepUpgrade.Planner.Chosen.{IsPublished, filter_by-All, stable_sorted-All}

-- An upgrade of a package to a published stable version that is above the current one and that no
-- known advisory affects.
pub record IsSafe (packuments : String → Option Packument) (advisories : String → List Advisory)
    (item : UpgradeItem) : Type 0 where
  pub packument : Packument
  pub known : packuments item.name ≡ some packument
  pub published : IsPublished packument.versions item.target_version
  pub fix : IsFix (advisories item.name) item.current_version item.target_version

of-Some : (P : Text → Type 0) (w : Text) (vs : List Text) → All P vs → Some (λ v. v ≡ w) vs → P w
of-Some P w [] h s = absurd s
of-Some P w (v ∷ vs) h (inl same) = subst P same h.0
of-Some P w (v ∷ vs) h (inr later) = of-Some P w vs h.1 later

module _ (packuments : String → Option Packument) (advisories : String → List Advisory) where
  -- One round of the loop, for a dependency whose package is known.
  module _ (dep : DepEntry) (packument : Packument) (known : packuments dep.name ≡ some packument)
      (current : Text) where
    item_of-IsSafe :
        (kind : UpgradeKind) (breaking : Bool) (active : List Advisory) (target : Text)
        → IsPublished packument.versions target
        → IsFix (advisories dep.name) current target
        → IsSafe packuments advisories (item_of dep kind current target breaking active)
    item_of-IsSafe kind breaking active target p f = record {
      packument = packument;
      known = known;
      published = p;
      fix = f;
    }

    -- an item that is proposed if a test holds
    if-IsSafe :
        (good : Bool) (kind : UpgradeKind) (breaking : Bool) (target : Text)
        → IsPublished packument.versions target
        → (good ≡ true → IsFix (advisories dep.name) current target)
        → All
            (IsSafe packuments advisories)
            (if good then item_of dep kind current target breaking [] ∷ [] else [])
    if-IsSafe true kind breaking target p f =
        (item_of-IsSafe kind breaking [] target p (f refl), tt)
    if-IsSafe false kind breaking target p f = tt

    abbrev stable : List Text
    stable = stable_sorted packument.versions

    abbrev Safe : List UpgradeItem → Type 0
    Safe items = All (IsSafe packuments advisories) items

    propose_outdated-Safe :
        (o : Option Text) (items : List UpgradeItem)
        → IsBest (λ w v. NotAbove v w) stable dep.range o
        → propose_outdated dep current (advisories dep.name) o ≡ ok items
        → Safe items
    unfolding propose_outdated
    propose_outdated-Safe none items best h = subst Safe (ok_inj h) tt
    propose_outdated-Safe (some v) items best h =
        let (good, (e, k)) = bind-ok (is_candidate (advisories dep.name) current v) _ h in
        subst Safe (ok_inj k) (
          if-IsSafe good UpgradeKind.outdated false v
            (of-Some (IsPublished packument.versions) v stable
              (stable_sorted-All packument.versions) best.0)
            (λ t. is_candidate-IsFix (advisories dep.name) current v (e ∙ ap ok t)))

    plan_outdated-Safe :
        (items : List UpgradeItem)
        → plan_outdated dep stable current (advisories dep.name) ≡ ok items
        → Safe items
    unfolding plan_outdated
    plan_outdated-Safe items h =
        let (latest, (e, k)) = bind-ok (max_satisfying stable dep.range) _ h in
        propose_outdated-Safe latest items (max_satisfying-IsBest stable dep.range latest e) k

    propose_major-Safe :
        (o : Option Text) (items : List UpgradeItem)
        → ((v : Text) → o ≡ some v → IsPublished packument.versions v)
        → propose_major dep current (advisories dep.name) o ≡ ok items
        → Safe items
    unfolding propose_major
    propose_major-Safe none items p h = subst Safe (ok_inj h) tt
    propose_major-Safe (some v) items p h =
        let (good, (e, k)) = bind-ok (is_next_major (advisories dep.name) current v) _ h in
        subst Safe (ok_inj k) (
          if-IsSafe good UpgradeKind.next_major true v (p v refl)
            (λ t. is_next_major-IsFix (advisories dep.name) current v (e ∙ ap ok t)))

    plan_major-Safe :
        (next : Bool) (items : List UpgradeItem)
        → plan_major next dep stable current (advisories dep.name) ≡ ok items
        → Safe items
    unfolding plan_major
    plan_major-Safe false items h = subst Safe (ok_inj h) tt
    plan_major-Safe true items h =
        propose_major-Safe (last? stable) items
          (λ v e.
            All-last? (IsPublished packument.versions) stable (stable_sorted-All packument.versions)
              e)
          h

    plan_maintenance-Safe :
        (next : Bool) (plan : UpgradePlan)
        → plan_maintenance next dep stable (advisories dep.name) current ≡ ok plan
        → Safe plan.items
    unfolding plan_maintenance
    plan_maintenance-Safe next plan h =
        let (inside, (e, k)) =
          bind-ok (plan_outdated dep stable current (advisories dep.name)) _ h in
        let (beyond, (f, l)) =
          bind-ok (plan_major next dep stable current (advisories dep.name)) _ k in
        subst (λ p. Safe p.items) (ok_inj l)
          (All-append (IsSafe packuments advisories) inside beyond (plan_outdated-Safe inside e)
            (plan_major-Safe next beyond f))

    -- A candidate, and what is picked of those of the current major.
    abbrev IsCandidate : Text → Type 0
    IsCandidate v =
        (is_candidate (advisories dep.name) current v ≡ ok true) × IsPublished packument.versions v

    fix_item-Safe :
        (active : List Advisory) (same_major : List Text) (nearest : Text)
        → All IsCandidate same_major
        → IsCandidate nearest
        → IsSafe packuments advisories (fix_item dep current active same_major nearest)
    unfolding fix_item
    fix_item-Safe active [] nearest h c =
        item_of-IsSafe UpgradeKind.security true active nearest c.1
          (is_candidate-IsFix (advisories dep.name) current nearest c.0)
    fix_item-Safe active (v ∷ rest) nearest h c =
        item_of-IsSafe UpgradeKind.security false active v h.0.1
          (is_candidate-IsFix (advisories dep.name) current v h.0.0)

    fix_from-Safe :
        (active : List Advisory) (candidates : List Text) (plan : UpgradePlan)
        → All IsCandidate candidates
        → fix_from dep current active candidates ≡ ok plan
        → Safe plan.items
    unfolding fix_from
    fix_from-Safe active [] plan c h = subst (λ p. Safe p.items) (ok_inj h) tt
    fix_from-Safe active (v ∷ vs) plan c h =
        let (major, (e, k)) = bind-ok (major_of current) _ h in
        let (same_major, (f, l)) = bind-ok (filter_by (has_major major) (v ∷ vs)) _ k in
        let kept = filter_by-All (has_major major) IsCandidate (v ∷ vs) same_major c f in
        subst (λ p. Safe p.items) (ok_inj l)
          (
            fix_item-Safe active same_major v
                (All-map {P = λ y. (has_major major y ≡ ok true) × IsCandidate y} {Q = IsCandidate}
                  (λ y q. q.1) same_major kept)
                c.0,
            tt,
          )

    plan_fix-Safe :
        (active : List Advisory) (plan : UpgradePlan)
        → plan_fix dep stable current (advisories dep.name) active ≡ ok plan
        → Safe plan.items
    unfolding plan_fix
    plan_fix-Safe active plan h =
        let (candidates, (e, k)) =
          bind-ok (filter_by (is_candidate (advisories dep.name) current) stable) _ h in
        fix_from-Safe active candidates plan
          (filter_by-All (is_candidate (advisories dep.name) current)
            (IsPublished packument.versions) stable candidates
            (stable_sorted-All packument.versions) e)
          k

    plan_current-Safe :
        (next : Bool) (plan : UpgradePlan)
        → plan_current next dep stable (advisories dep.name) current ≡ ok plan
        → Safe plan.items
    unfolding plan_current
    plan_current-Safe next plan h =
        let (active, (e, k)) = bind-ok (filter_by (affects current) (advisories dep.name)) _ h in
        elim (Bool-cases (not (is_empty active))) [
          | inl t ↦ plan_fix-Safe active plan (rw t at k)
          | inr f ↦ plan_maintenance-Safe next plan (rw f at k)
        ]

  plan_package-Safe :
      (next : Bool) (dep : DepEntry) (o : Option Packument) (plan : UpgradePlan)
      → packuments dep.name ≡ o
      → plan_package next dep (advisories dep.name) o ≡ ok plan
      → All (IsSafe packuments advisories) plan.items
  unfolding plan_package plan_resolved
  plan_package-Safe next dep none plan known h =
      subst (λ p. All (IsSafe packuments advisories) p.items) (ok_inj h) tt
  plan_package-Safe next dep (some packument) plan known h =
      let (current, (e, k)) = bind-ok (resolve_current_version dep packument) _ h in
      resolved_safe current k
    where
      resolved_safe :
          (current : Option Text)
          → plan_resolved next dep packument (advisories dep.name) current ≡ ok plan
          → All (IsSafe packuments advisories) plan.items
      resolved_safe none k = subst (λ p. All (IsSafe packuments advisories) p.items) (ok_inj k) tt
      resolved_safe (some v) k = plan_current-Safe dep packument known v next plan k

  module _ (locale_le : String → String → Bool) where
    -- A property of the items of every round is one of the whole plan's.
    pub build_plan-All :
        (P : UpgradeItem → Type 0) (next : Bool) (deps : List DepEntry) (plan : UpgradePlan)
        → ((dep : DepEntry) (p : UpgradePlan)
            → plan_dep next packuments advisories dep ≡ ok p
            → All P p.items)
        → build_plan locale_le next packuments advisories deps ≡ ok plan
        → All P plan.items
    unfolding build_plan
    build_plan-All P next deps plan each h =
        let (whole, (e, k)) = bind-ok (plan_deps locale_le next packuments advisories deps) _ h in
        subst (λ p. All P p.items) (ok_inj k)
          (All-sort (item_le locale_le) P whole.items (rounds deps whole e))
      where
        rounds :
            (deps : List DepEntry) (whole : UpgradePlan)
            → plan_deps locale_le next packuments advisories deps ≡ ok whole
            → All P whole.items
        rounds [] whole e = subst (λ p. All P p.items) (ok_inj e) tt
        rounds (dep ∷ deps) whole e =
            let (here, (f, k)) = bind-ok (plan_dep next packuments advisories dep) _ e in
            let (later, (g, l)) =
              bind-ok (plan_deps locale_le next packuments advisories deps) _ k in
            subst (λ p. All P p.items) (ok_inj l)
              (All-append P here.items later.items (each dep here f) (rounds deps later g))

    -- Every upgrade of a plan that `buildPlan` returns, of whatever kind, is to a published stable
    -- version of the package, above the current version, which no advisory known for the package
    -- affects.
    pub build_plan-IsSafe :
        (next : Bool) (deps : List DepEntry) (plan : UpgradePlan)
        → build_plan locale_le next packuments advisories deps ≡ ok plan
        → All (IsSafe packuments advisories) plan.items
    build_plan-IsSafe next deps plan h =
        build_plan-All (IsSafe packuments advisories) next deps plan
          (λ dep p e. plan_package-Safe next dep (packuments dep.name) p refl e) h
