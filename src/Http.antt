-- ===== src/Http.antt =====
-- bench/strong/http_service.py: the origin of media objects, and the adapter from HTTP to the cache.
pub mod Bodies
pub mod Paths
pub mod Service
pub mod Harness
