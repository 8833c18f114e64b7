-- ===== src/Core/Utils.antt =====
-- src/core/utils.py: the helpers on dictionaries, ranges and lists of tags.
pub mod Dicts
pub mod Chunks
pub mod Tags
