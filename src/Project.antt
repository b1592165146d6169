-- ===== src/Project.antt =====
-- internal/project: the validation of projects, their slugs, the store and its listing.
pub mod Slug
pub mod Validate
pub mod Tables
pub mod Store
pub mod Listing
pub mod Tests
