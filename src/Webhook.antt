-- ===== src/Webhook.antt =====
-- src/webhook: request signing and the delivery queue.
pub mod Signature
pub mod Delivery
pub mod Envelope
pub mod Forwarder
