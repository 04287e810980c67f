-- ===== src/Ops/Authorization.antt =====
-- crates/ash-ops/src/authorization.rs: session policies and one-time approval permits.
pub mod Policy
pub mod Permits
pub mod Separation
pub mod Compare
pub mod Verify
pub mod Issue
pub mod Replay
pub mod Capacity
mod Tests
