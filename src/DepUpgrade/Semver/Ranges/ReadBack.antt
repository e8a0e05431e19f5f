-- ===== src/DepUpgrade/Semver/Ranges/ReadBack.antt =====
-- What `parseSemver` of roster/dep-upgrade/semver.ts reads in the text that `mk` gives a version.
use dacs_agent_reference.Common.{ℕ, some, List, [], ◌≡◌}
use dacs_agent_reference.DepUpgrade.Semver.{Identifier, parse_semver}
use dacs_agent_reference.DepUpgrade.Semver.Print.{parse_semver-version_text}
use dacs_agent_reference.DepUpgrade.Semver.Ranges.{mk}

-- Parsing the text that `mk` gives a version reads its numbers back: the result is the version of
-- these numbers and this text without prerelease identifiers, whatever identifiers the version has,
-- since its text leaves them out.
pub parse_semver-mk :
    (a b c : ℕ) (ids : List Identifier) → parse_semver (mk a b c ids).raw ≡ some (mk a b c [])
parse_semver-mk a b c ids = parse_semver-version_text a b c
