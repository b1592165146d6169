-- ===== src/Ssrf.antt =====
-- internal/platform/ssrf/ssrf.go: the guard of outbound webhook deliveries.
pub mod Address
pub mod Guard
pub mod Tests
