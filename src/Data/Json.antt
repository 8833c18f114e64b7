-- ===== src/Data/Json.antt =====
-- src/data_processing/json_handler.py.
pub mod Value
pub mod RecordSet
pub mod Envelope
pub mod Handler
pub mod Laws
pub mod Checks
mod Tests
