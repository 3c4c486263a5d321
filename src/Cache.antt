-- ===== src/Cache.antt =====
-- The caches of src/cache.
pub mod Duration
pub mod Store
