-- ===== src/Ops.antt =====
-- crates/ash-ops: the operations and their authorization.
pub mod Authorization
