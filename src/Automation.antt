-- ===== src/Automation.antt =====
-- src/automation: the task scheduler and the plugin system.
pub mod Scheduler
pub mod Plugins
mod Tests
