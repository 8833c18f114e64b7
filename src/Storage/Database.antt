-- ===== src/Storage/Database.antt =====
-- src/storage/database.py.
pub mod Query
pub mod Connection
pub mod Manager
pub mod Rows
pub mod Batch
mod Tests
