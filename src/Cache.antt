-- ===== src/Cache.antt =====
-- app/cache: what the program keeps in Redis, but for the rate limiter.
pub mod UrlCache
pub mod Prefixes
pub mod AnalyticsCache
