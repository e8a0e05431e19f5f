-- ===== src/Treasury.antt =====
-- roster/treasury-ops: the planner proposes transfers, the approval gate re-checks them, the
-- executor carries out an approved plan on the chains and journals what it did.
pub mod Types
pub mod Approval
pub mod Planner
pub mod Executor
pub mod MockChain
pub mod Proof
mod Tests
