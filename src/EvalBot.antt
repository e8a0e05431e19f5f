-- ===== src/EvalBot.antt =====
-- The evaluator of roster/evalbot: rulings and their ledger.
pub mod Ruling
pub mod Ledger
mod Tests
