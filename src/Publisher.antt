-- ===== src/Publisher.antt =====
-- The publisher of roster/publisher-agent: quotes and reservations of advertising inventory.
pub mod Rfq
mod Tests
