-- ===== src/RateLimit.antt =====
-- The rate limits: src/server/middleware/rate_limit.py over the counters of src/cache/memory.py
-- and src/cache/sqlite_backend.py.
pub mod Request
pub mod Memory
pub mod Sqlite
pub mod Middleware
