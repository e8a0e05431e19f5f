-- ===== src/DepUpgrade/Tests.antt =====
-- Runs of roster/dep-upgrade on small packages.
use dacs_agent_reference.Common.{
  String, true, false, Option, none, some, List, [], ◌∷◌, ◌≡◌, refl, All, if◌then◌else◌, str_eq,
}
use dacs_agent_reference.Common.Sort.{sort}
use dacs_agent_reference.Common.Result.{thrown, ok}
use dacs_agent_reference.DepUpgrade.Semver.{
  Text, codes, numeric, alphanumeric, parse_semver, full_version, digits, dot_digits, suffix,
  compare_semver, compare_prerelease, lexicographic, compare_versions, is_stable, major_of,
}
use dacs_agent_reference.DepUpgrade.Semver.Ranges.ReadBack.{parse_semver-mk}
use dacs_agent_reference.DepUpgrade.Semver.Ranges.{
  test_comparator, caret_comparators, mk, satisfies, parse_range, parse_comparator_token,
  partial_version, dot_part, first_satisfying, min_satisfying, max_satisfying,
}
use dacs_agent_reference.DepUpgrade.Semver.Ranges.Best.{
  NotAbove, IsBest, min_satisfying-IsBest, max_satisfying-IsBest,
}
use dacs_agent_reference.DepUpgrade.Planner.{
  dependencies, DepEntry, Packument, Advisory, UpgradePlan, UpgradeItem, security, build_plan,
  stable_sorted, resolve_current_version, clears_all, is_candidate, fix_item, fix_from, plan_fix,
  plan_current, plan_resolved, plan_package,
}
use dacs_agent_reference.DepUpgrade.Planner.Safe.{IsSafe, build_plan-IsSafe}
use dacs_agent_reference.DepUpgrade.Planner.Nearest.{IsNearest, build_plan-IsNearest}

parse_semver_prerelease :
    parse_semver (codes " v1.2.3-rc.1+build ")
    ≡ some (record {
      major = 1;
      minor = 2;
      patch = 3;
      prerelease = alphanumeric (codes "rc") ∷ numeric 1 ∷ [];
      raw = codes "v1.2.3-rc.1+build";
    })
unfolding parse_semver full_version digits dot_digits suffix
parse_semver_prerelease = refl

parse_semver_partial : parse_semver (codes "1.2") ≡ none
unfolding parse_semver full_version digits dot_digits suffix
parse_semver_partial = refl

-- The identifier of 10.0.203-7 is not read back.
parse_semver-mk_example : parse_semver (mk 10 0 203 (numeric 7 ∷ [])).raw ≡ some (mk 10 0 203 [])
parse_semver-mk_example = parse_semver-mk 10 0 203 (numeric 7 ∷ [])

satisfies_or : satisfies (codes "3.1.0") (codes "^1.2.0 || >=3.0.0 <4") ≡ ok true
unfolding satisfies parse_range parse_comparator_token partial_version dot_part parse_semver
    full_version digits dot_digits suffix caret_comparators test_comparator compare_semver
    compare_prerelease lexicographic
satisfies_or = refl

satisfies_garbage : satisfies (codes "3.1.0") (codes "latest") ≡ thrown (codes "latest")
unfolding satisfies parse_range parse_comparator_token partial_version dot_part parse_semver
    full_version digits dot_digits suffix
satisfies_garbage = refl

abbrev published : List Text
published = codes "2.0.0" ∷ codes "1.0.1" ∷ codes "1.1.0-beta" ∷ codes "1.0.0" ∷ []

abbrev in_range : Text
in_range = codes "^1.0.0"

the_max : max_satisfying published in_range ≡ ok (some (codes "1.1.0-beta"))
unfolding max_satisfying first_satisfying sort satisfies parse_range parse_comparator_token
    partial_version dot_part parse_semver full_version digits dot_digits suffix caret_comparators
    test_comparator compare_semver compare_prerelease lexicographic
the_max = refl

max_satisfying-IsBest_example :
    IsBest (λ w v. NotAbove v w) published in_range (some (codes "1.1.0-beta"))
max_satisfying-IsBest_example =
    max_satisfying-IsBest published in_range (some (codes "1.1.0-beta")) the_max

the_min : min_satisfying published in_range ≡ ok (some (codes "1.0.0"))
unfolding min_satisfying first_satisfying sort satisfies parse_range parse_comparator_token
    partial_version dot_part parse_semver full_version digits dot_digits suffix caret_comparators
    test_comparator compare_semver compare_prerelease lexicographic
the_min = refl

min_satisfying-IsBest_example : IsBest NotAbove published in_range (some (codes "1.0.0"))
min_satisfying-IsBest_example =
    min_satisfying-IsBest published in_range (some (codes "1.0.0")) the_min

abbrev dep : DepEntry
dep = record {
  name = "left";
  range = in_range;
  section = dependencies;
  installed_version = some (codes "1.0.0");
}

abbrev packuments : String → Option Packument
packuments name =
    if str_eq name "left"
    then some (record { name = "left"; latest = codes "2.0.0"; versions = published })
    else none

abbrev hole : Advisory
hole = record { id = "GHSA-1"; severity = "high"; vulnerable_versions = codes "<1.0.1" }

abbrev advisories : String → List Advisory
advisories name = hole ∷ []

abbrev fix : UpgradeItem
fix = record {
  name = "left";
  section = dependencies;
  kind = security;
  current_version = codes "1.0.0";
  current_range = in_range;
  target_version = codes "1.0.1";
  new_range = codes "^1.0.1";
  breaking = false;
  advisories = hole ∷ [];
}

abbrev the_plan : UpgradePlan
the_plan = record { items = fix ∷ []; unactionable = [] }

planned : build_plan (λ a b. true) true packuments advisories (dep ∷ []) ≡ ok the_plan
unfolding build_plan plan_package plan_resolved plan_current plan_fix fix_from fix_item is_candidate
    clears_all resolve_current_version stable_sorted is_stable major_of compare_versions sort
    satisfies parse_range parse_comparator_token partial_version dot_part parse_semver full_version
    digits dot_digits suffix caret_comparators test_comparator compare_semver compare_prerelease
    lexicographic
planned = refl

build_plan-IsSafe_example : All (IsSafe packuments advisories) (fix ∷ [])
build_plan-IsSafe_example =
    build_plan-IsSafe packuments advisories (λ a b. true) true (dep ∷ []) the_plan planned

build_plan-IsNearest_example : All (IsNearest packuments advisories) (fix ∷ [])
build_plan-IsNearest_example =
    build_plan-IsNearest (λ a b. true) packuments advisories true (dep ∷ []) the_plan planned
