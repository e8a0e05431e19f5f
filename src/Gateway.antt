-- ===== src/Gateway.antt =====
-- The gateway of roster/gateway: what a payment buys.
pub mod Settlement
mod Tests
