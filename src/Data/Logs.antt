-- ===== src/Data/Logs.antt =====
-- src/data_processing/log_parser.py.
pub mod Regex
pub mod Entry
pub mod Parser
pub mod Rows
pub mod Loop
pub mod Files
pub mod Scada
mod Tests
