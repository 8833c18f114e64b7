-- ===== src/Core.antt =====
-- src/core: value types, iterator helpers, utilities and exceptions.
pub mod Itertools
pub mod Types
pub mod Readings
pub mod Utils
pub mod Errors
pub mod Config
pub mod Strings
mod Tests
