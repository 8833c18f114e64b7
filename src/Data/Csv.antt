-- ===== src/Data/Csv.antt =====
-- src/data_processing/csv_processor.py.
pub mod Mapper
pub mod Processor
pub mod Records
pub mod Raises
mod Tests
