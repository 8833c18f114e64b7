-- ===== src/Storage.antt =====
-- src/storage: the in-memory and disk cache, the file store and the database layer.
pub mod Cache
pub mod Files
pub mod Database
mod Tests
