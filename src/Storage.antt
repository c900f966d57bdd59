-- ===== src/Storage.antt =====
-- src/storage: the key layout and the in-memory adapter.
pub mod Namespace
pub mod Memory
pub mod Adapter
mod Tests
