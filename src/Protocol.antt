-- ===== src/Protocol.antt =====
-- crates/ash-protocol: the wire values of ASH/1.
pub mod Operation
mod Tests
pub mod Approval
pub mod Ason
pub mod Frame
pub mod Handshake
