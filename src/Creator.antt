-- ===== src/Creator.antt =====
-- src/modules/creator: profiles, slugs and their holds.
pub mod Slug
pub mod SplitsSchema
pub mod Table
pub mod Hold
pub mod Claim
pub mod Service
pub mod Unique
pub mod Release
pub mod Lapse
pub mod Availability
pub mod Placeholders
