-- ===== src/Redis.antt =====
-- internal/storage/redis: the cache over Redis.
pub mod Store
pub mod Contents
