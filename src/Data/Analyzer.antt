-- ===== src/Data/Analyzer.antt =====
-- src/data_processing/text_analyzer.py.
pub mod Tokens
pub mod Keywords
pub mod Sets
pub mod Faults
pub mod Duplicates
mod Tests
