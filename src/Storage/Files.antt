-- ===== src/Storage/Files.antt =====
-- src/storage/file_store.py.
pub mod Store
pub mod Dumps
pub mod Purge
pub mod Fates
pub mod Removed
mod Tests
