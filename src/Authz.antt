-- ===== src/Authz.antt =====
-- internal/authz: roles and permissions, the permissions of API keys, and principals.
pub mod Roles
pub mod Keys
pub mod Principal
pub mod Tests
