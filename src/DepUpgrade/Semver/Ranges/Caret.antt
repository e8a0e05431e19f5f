-- ===== src/DepUpgrade/Semver/Ranges/Caret.antt =====
-- What the ranges `^1.2.3` and `~1.2.3` of roster/dep-upgrade/semver.ts admit.
use dacs_agent_reference.Common.{ℕ, Bool, ◌&&◌, ◌||◌, ltb, leb, ◌==◌, if◌then◌else◌}
use dacs_agent_reference.DepUpgrade.Semver.{SemVer}

-- The version is at least the one given, number by number.
abbrev pub reaches : ℕ → ℕ → ℕ → SemVer → Bool
reaches major minor patch v =
    ltb major v.major
    || (v.major == major && (ltb minor v.minor || (v.minor == minor && leb patch v.patch)))

-- npm's rule for `^`: the left-most number that is not zero stays, and what is right of it does
-- not go down.
abbrev pub caret_allows : ℕ → ℕ → ℕ → SemVer → Bool
caret_allows major minor patch v =
    if ltb 0 major
    then v.major == major && (ltb minor v.minor || (v.minor == minor && leb patch v.patch))
    else if ltb 0 minor
    then v.major == 0 && v.minor == minor && leb patch v.patch
    else v.major == 0 && v.minor == 0 && v.patch == patch

-- npm's rule for `~`: the major and the minor number stay, and the patch does not go down.
abbrev pub tilde_allows : ℕ → ℕ → ℕ → SemVer → Bool
tilde_allows major minor patch v = v.major == major && v.minor == minor && leb patch v.patch
