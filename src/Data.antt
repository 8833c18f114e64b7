-- ===== src/Data.antt =====
-- src/data_processing.
pub mod Mainframe
pub mod Logs
pub mod Json
pub mod Xml
pub mod Csv
pub mod Analyzer
mod Tests
