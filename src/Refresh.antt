-- ===== src/Refresh.antt =====
-- internal/authn/refresh.go: refresh tokens, their rotation, and the families that they belong to.
pub mod Tables
pub mod Store
pub mod Rotate
pub mod Steps
pub mod Tests
