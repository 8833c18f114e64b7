-- ===== src/Automation/Plugins.antt =====
-- src/automation/plugin_loader.py: the registry of plugin classes, and the loader's modules and
-- instances. What a module's code does when it runs, and what a class's hooks do, are arguments.
pub mod Registry
pub mod Loader
pub mod Lifecycle
pub mod Runs
pub mod Reload
