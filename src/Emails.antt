-- ===== src/Emails.antt =====
-- src/modules/notifications/email.service.ts: the email for a tip and the hourly digest.
pub mod Html
pub mod Tip
pub mod Digest
