-- ===== src/Idempotency.antt =====
-- internal/idempotency and internal/httpx/idempotency.go: keys that make an unsafe request safe to
-- retry.
pub mod Protocol
pub mod Headers
pub mod Store
pub mod Middleware
pub mod Tests
