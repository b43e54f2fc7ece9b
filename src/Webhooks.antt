-- ===== src/Webhooks.antt =====
-- src/modules/webhooks: registration, the delivery queue, the deliveries and their retention.
pub mod Queue
pub mod Registry
pub mod Retention
pub mod Delivery
pub mod Destination
