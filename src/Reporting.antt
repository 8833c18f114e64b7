-- ===== src/Reporting.antt =====
-- src/reporting/web_dashboard.py: the sessions and the data that the pages show.
pub mod Sessions
pub mod Alarms
pub mod History
mod Tests
