-- ===== src/Subcontract.antt =====
-- The general contractor of roster/subcontract, which sells a bundle of sourced components.
pub mod Bundle
pub mod Sourcing
mod Tests
