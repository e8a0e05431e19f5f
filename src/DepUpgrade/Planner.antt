-- ===== src/DepUpgrade/Planner.antt =====
-- roster/dep-upgrade/planner.ts: the plan of upgrades from the dependencies, the published versions
-- and the advisories. Texts for a reader (rationales, and the words of a reason) are left out.
pub mod Chosen
pub mod Fix
pub mod Safe
pub mod Nearest
use Prim.Native.Nat.{Ordering}
use dacs_agent_reference.Common.{
  ℕ, ◌+◌, String, Bool, true, false, not, ◌&&◌, Option, none, some, List, [], ◌∷◌, ◌++◌, is_empty,
  ltb, ◌==◌, if◌then◌else◌, last?, is_some,
}
use dacs_agent_reference.Common.Sort.{sort}
use dacs_agent_reference.Common.Result.{Result, thrown, ok, ◌>>=◌}
use dacs_agent_reference.DepUpgrade.Semver.{
  Text, trim, is_greater, parse_semver, compare_versions, is_stable, major_of,
}
use dacs_agent_reference.DepUpgrade.Semver.Ranges.{satisfies, min_satisfying, max_satisfying}

pub data DepSection : Type 0 where
  dependencies dev_dependencies : DepSection

pub record DepEntry : Type 0 where
  pub name : String
  pub range : Text
  pub section : DepSection
  pub installed_version : Option Text

pub record Packument : Type 0 where
  pub name : String
  pub latest : Text
  pub versions : List Text

pub record Advisory : Type 0 where
  pub id : String
  pub severity : String
  pub vulnerable_versions : Text

pub data UpgradeKind : Type 0 where
  security outdated next_major : UpgradeKind

pub record UpgradeItem : Type 0 where
  pub name : String
  pub section : DepSection
  pub kind : UpgradeKind
  pub current_version : Text
  pub current_range : Text
  pub target_version : Text
  pub new_range : Text
  pub breaking : Bool
  pub advisories : List Advisory

pub data Reason : Type 0 where
  no_packument no_version no_fix : Reason

pub record UnactionableDep : Type 0 where
  pub name : String
  pub reason : Reason

pub record UpgradePlan : Type 0 where
  pub items : List UpgradeItem
  pub unactionable : List UnactionableDep

abbrev pub filter {ℓ} : {A : Type ℓ} → (A → Bool) → List A → List A
filter p [] = []
filter p (x ∷ xs) = let rest = filter p xs in if p x then x ∷ rest else rest

-- `filter` and `every` by a test that may throw
abbrev pub filter_by : {A : Type 0} → (A → Result Text Bool) → List A → Result Text (List A)
filter_by p [] = ok []
filter_by p (x ∷ xs) =
    let rest = filter_by p xs in
    do keep ← p x; others ← rest; ok (if keep then x ∷ others else others)

abbrev pub every_by : {A : Type 0} → (A → Result Text Bool) → List A → Result Text Bool
every_by p [] = ok true
every_by p (x ∷ xs) = let rest = every_by p xs in do holds ← p x; if holds then rest else ok false

-- `compareVersions(a, b) <= 0`; it does not throw on stable versions
abbrev pub versions_le : Text → Text → Bool
versions_le a b = elim (compare_versions a b) [ thrown e ↦ true | ok o ↦ not (is_greater o) ]

unfoldable pub stable_sorted : List Text → List Text
stable_sorted versions = sort versions_le (filter is_stable versions)

abbrev pub first_is : ℕ → Text → Bool
first_is c [] = false
first_is c (d ∷ s) = d == c

abbrev pub preserve_range_style : Text → Text → Text
preserve_range_style current_range target =
    let trimmed = trim current_range in
    if first_is b'^' trimmed
    then b'^' ∷ target
    else if first_is b'~' trimmed
    then b'~' ∷ target
    else target

-- the installed version if it can be read and satisfies the range, else `none`
abbrev pub installed : DepEntry → Option Text → Result Text (Option Text)
installed dep none = ok none
installed dep (some version) =
    if not (is_empty version) && is_some (parse_semver version)
    then (do in_range ← satisfies version dep.range; ok (if in_range then some version else none))
    else ok none

abbrev pub resolved : DepEntry → Packument → Option Text → Result Text (Option Text)
resolved dep packument (some version) = ok (some version)
resolved dep packument none = min_satisfying (stable_sorted packument.versions) dep.range

unfoldable pub resolve_current_version : DepEntry → Packument → Result Text (Option Text)
resolve_current_version dep packument = do
  locked ← installed dep dep.installed_version
  resolved dep packument locked

abbrev pub affects : Text → Advisory → Result Text Bool
affects version a = satisfies version a.vulnerable_versions

abbrev pub spares : Text → Advisory → Result Text Bool
spares version a = do affected ← affects version a; ok (not affected)

unfoldable pub clears_all : List Advisory → Text → Result Text Bool
clears_all advisories version = every_by (spares version) advisories

-- `compareVersions(v, current) > 0`
abbrev pub is_above : Text → Text → Result Text Bool
is_above current version = do o ← compare_versions version current; ok (is_greater o)

-- `compareVersions(v, current) > 0 && clearsAll(v)`
unfoldable pub is_candidate : List Advisory → Text → Text → Result Text Bool
is_candidate advisories current version = do
  above ← is_above current version
  if above then clears_all advisories version else ok false

abbrev pub has_major : ℕ → Text → Result Text Bool
has_major major version = do m ← major_of version; ok (m == major)

abbrev pub item_of : DepEntry → UpgradeKind → Text → Text → Bool → List Advisory → UpgradeItem
item_of dep kind current target breaking advisories = record {
  name = dep.name;
  section = dep.section;
  kind = kind;
  current_version = current;
  current_range = dep.range;
  target_version = target;
  new_range = preserve_range_style dep.range target;
  breaking = breaking;
  advisories = advisories;
}

abbrev pub give_up : DepEntry → Reason → UpgradePlan
give_up dep reason = record {
  items = [];
  unactionable = record { name = dep.name; reason = reason } ∷ [];
}

abbrev pub propose : List UpgradeItem → UpgradePlan
propose items = record { items = items; unactionable = [] }

-- the nearest candidate, within the current major if one is
unfoldable pub fix_item : DepEntry → Text → List Advisory → List Text → Text → UpgradeItem
fix_item dep current active [] nearest =
    item_of dep UpgradeKind.security current nearest true active
fix_item dep current active (target ∷ rest) nearest =
    item_of dep UpgradeKind.security current target false active

unfoldable pub fix_from : DepEntry → Text → List Advisory → List Text → Result Text UpgradePlan
fix_from dep current active [] = ok (give_up dep Reason.no_fix)
fix_from dep current active (nearest ∷ candidates) = do
  current_major ← major_of current
  same_major ← filter_by (has_major current_major) (nearest ∷ candidates)
  ok (propose (fix_item dep current active same_major nearest ∷ []))

-- the nearest stable version above the current one that clears everything
unfoldable pub plan_fix :
    DepEntry → List Text → Text → List Advisory → List Advisory → Result Text UpgradePlan
plan_fix dep stable current known active = do
  candidates ← filter_by (is_candidate known current) stable
  fix_from dep current active candidates

unfoldable pub propose_outdated :
    DepEntry → Text → List Advisory → Option Text → Result Text (List UpgradeItem)
propose_outdated dep current known none = ok []
propose_outdated dep current known (some version) = do
  good ← is_candidate known current version
  ok (if good then item_of dep UpgradeKind.outdated current version false [] ∷ [] else [])

-- the latest stable version inside the declared range
unfoldable pub plan_outdated :
    DepEntry → List Text → Text → List Advisory → Result Text (List UpgradeItem)
plan_outdated dep stable current known = do
  latest ← max_satisfying stable dep.range
  propose_outdated dep current known latest

-- `majorOf(latestStable) > majorOf(current) && clearsAll(latestStable)`
abbrev pub is_next_major : List Advisory → Text → Text → Result Text Bool
is_next_major known current version = do
  major ← major_of version
  current_major ← major_of current
  if ltb current_major major then clears_all known version else ok false

unfoldable pub propose_major :
    DepEntry → Text → List Advisory → Option Text → Result Text (List UpgradeItem)
propose_major dep current known none = ok []
propose_major dep current known (some version) = do
  good ← is_next_major known current version
  ok (if good then item_of dep UpgradeKind.next_major current version true [] ∷ [] else [])

-- the next major, when it is asked for
unfoldable pub plan_major :
    Bool → DepEntry → List Text → Text → List Advisory → Result Text (List UpgradeItem)
plan_major false dep stable current known = ok []
plan_major true dep stable current known = propose_major dep current known (last? stable)

unfoldable pub plan_maintenance :
    Bool → DepEntry → List Text → List Advisory → Text → Result Text UpgradePlan
plan_maintenance next dep stable known current = do
  inside ← plan_outdated dep stable current known
  beyond ← plan_major next dep stable current known
  ok (propose (inside ++ beyond))

-- one round of the loop, once the current version is known
unfoldable pub plan_current :
    Bool → DepEntry → List Text → List Advisory → Text → Result Text UpgradePlan
plan_current next dep stable known current = do
  active ← filter_by (affects current) known
  if not (is_empty active)
      then plan_fix dep stable current known active
      else plan_maintenance next dep stable known current

unfoldable pub plan_resolved :
    Bool → DepEntry → Packument → List Advisory → Option Text → Result Text UpgradePlan
plan_resolved next dep packument known none = ok (give_up dep Reason.no_version)
plan_resolved next dep packument known (some version) =
    plan_current next dep (stable_sorted packument.versions) known version

unfoldable pub plan_package :
    Bool → DepEntry → List Advisory → Option Packument → Result Text UpgradePlan
plan_package next dep known none = ok (give_up dep Reason.no_packument)
plan_package next dep known (some packument) = do
  current ← resolve_current_version dep packument
  plan_resolved next dep packument known current

-- one round of the loop
abbrev pub plan_dep :
    Bool
    → (String → Option Packument)
    → (String → List Advisory)
    → DepEntry
    → Result Text UpgradePlan
plan_dep next packuments advisories dep =
    plan_package next dep (advisories dep.name) (packuments dep.name)

abbrev pub order : UpgradeKind → ℕ
order UpgradeKind.security = 0
order UpgradeKind.outdated = 1
order UpgradeKind.next_major = 2

-- `locale_le` is the order of `localeCompare`; `advisories.get(name) ?? []` is a function.
module _ (locale_le : String → String → Bool) where
  abbrev pub item_le : UpgradeItem → UpgradeItem → Bool
  item_le a b =
      if order a.kind == order b.kind
      then locale_le a.name b.name
      else ltb (order a.kind) (order b.kind)

  abbrev pub plan_deps :
      Bool
      → (String → Option Packument)
      → (String → List Advisory)
      → List DepEntry
      → Result Text UpgradePlan
  plan_deps next packuments advisories [] = ok (propose [])
  plan_deps next packuments advisories (dep ∷ deps) =
      let rest = plan_deps next packuments advisories deps in
      do
        here ← plan_dep next packuments advisories dep
        later ← rest
        ok (record {
          items = here.items ++ later.items;
          unactionable = here.unactionable ++ later.unactionable;
        })

  unfoldable pub build_plan :
      Bool
      → (String → Option Packument)
      → (String → List Advisory)
      → List DepEntry
      → Result Text UpgradePlan
  build_plan next packuments advisories deps = do
    plan ← plan_deps next packuments advisories deps
    ok (record { items = sort item_le plan.items; unactionable = plan.unactionable })
