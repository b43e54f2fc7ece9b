-- ===== src/Analytics.antt =====
-- The figures of src/modules/analytics that are computed from all tips of a creator.
pub mod Sql
pub mod Collaborators
pub mod Earnings
pub mod Series
pub mod Supporters
pub mod Csv
