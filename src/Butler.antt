-- ===== src/Butler.antt =====
-- roster/procurement-butler: the buyer's agent, which picks a listing, negotiates its price, and checks
-- what is delivered.
pub mod Money
pub mod Types
pub mod Haggling
pub mod Procurement
pub mod Acceptance
mod Tests
