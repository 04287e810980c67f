-- ===== src/Shell.antt =====
-- crates/ash-shell: the shell language.
pub mod Glob
