-- ===== src/Store.antt =====
-- crates/ash-store: the session's path dictionary and its store of retained results.
pub mod PathDictionary
pub mod ResultStore
