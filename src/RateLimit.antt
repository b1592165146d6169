-- ===== src/RateLimit.antt =====
-- internal/ratelimit and internal/httpx/ratelimit.go: the sliding window that Redis keeps for each
-- caller, the limiter that asks it, and the middleware that refuses.
pub mod Script
pub mod Limiter
pub mod Enforce
pub mod Window
pub mod Tests
