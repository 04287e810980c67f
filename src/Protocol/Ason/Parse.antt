-- ===== src/Protocol/Ason/Parse.antt =====
-- crates/ash-protocol/src/ason/parse.rs: the parser and its ceilings. The parser's count of values
-- is passed from call to call.
pub mod Items
pub mod Lines
pub mod Fuel
pub mod Fields
