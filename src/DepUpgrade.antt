-- ===== src/DepUpgrade.antt =====
-- roster/dep-upgrade: versions and ranges, and the plan of upgrades.
pub mod Semver
pub mod Planner
mod Tests
