-- ===== src/Webhooks/Destination.antt =====
-- src/modules/webhooks/webhook-url.ts: the destinations that a webhook may have.
pub mod Address
pub mod Ranges
pub mod Dotted
pub mod Check
pub mod Public
pub mod Literal
