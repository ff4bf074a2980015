-- ===== src/Cache.antt =====
-- chic/cache: the response cache.
pub mod Store
pub mod Client
mod Tests
