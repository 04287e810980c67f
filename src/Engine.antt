-- ===== src/Engine.antt =====
-- crates/ash-engine: worker counts, budgets, permits, sessions and dependency graphs.
pub mod Budget
pub mod Parallel
pub mod Governor
pub mod Session
pub mod Dag
