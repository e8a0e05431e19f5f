-- ===== src/Sponsored.antt =====
-- The sponsored posts of roster/sponsored-post.
pub mod Idempotency
mod Tests
