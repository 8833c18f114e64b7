-- ===== src/Storage/Cache.antt =====
-- src/storage/cache.py: `Lru` follows CacheEntry and LRUCache, `Manager` follows CacheManager.
pub mod Lru
pub mod Manager
