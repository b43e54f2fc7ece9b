-- ===== src/Indexer.antt =====
-- src/indexer: the poll loop that turns contract events into tips.
pub mod Cursor
pub mod Backoff
pub mod Persist
pub mod Poll
