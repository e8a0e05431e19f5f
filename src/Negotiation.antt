-- ===== src/Negotiation.antt =====
-- roster/audit-negotiator: the price, tier and deadline of an audit are negotiated turn by turn, each
-- side within a guard that its policy cannot breach.
pub mod Terms
pub mod Harness
pub mod Agreement
pub mod Wire
pub mod Session
mod Tests
pub mod Policies
