-- ===== src/Protocol/Ason.antt =====
-- crates/ash-protocol/src/ason: the ASON document model, its encoder and its parser.
pub mod Errors
pub mod Model
pub mod Scalar
pub mod Encode
pub mod Split
pub mod Parse
pub mod RoundTrip
mod Tests
