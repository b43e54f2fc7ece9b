-- ===== src/Feeds.antt =====
-- The feeds that are read newest first by cursor: the tips of src/modules/analytics and the
-- notifications of src/modules/notifications.
pub mod Cursor
pub mod Select
pub mod Follow
pub mod Tips
pub mod Notices
