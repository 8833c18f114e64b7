-- ===== src/Core/Strings.antt =====
-- src/core/string_helpers.py.
pub mod Convert
pub mod Lines
pub mod Split
mod Tests
