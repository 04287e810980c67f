-- ===== src/Shell/Glob.antt =====
-- crates/ash-shell/src/glob.rs: pathname patterns of one path component.
pub mod Pattern
pub mod Compiling
pub mod Denotation
pub mod Matching
mod Tests
