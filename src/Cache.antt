-- ===== src/Cache.antt =====
-- python/adapters/model_cache.py: the node-local cache of model weights.
pub mod Disk
pub mod Config
pub mod Lru
pub mod Populate
pub mod Access
mod Tests
