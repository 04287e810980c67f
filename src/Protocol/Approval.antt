-- ===== src/Protocol/Approval.antt =====
-- crates/ash-protocol/src/capability.rs: capability bits, approval challenges and approval tokens.
pub mod Values
pub mod Hex
pub mod HexRoundTrip
pub mod Challenge
pub mod Signing
mod Tests
