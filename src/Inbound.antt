-- ===== src/Inbound.antt =====
-- src/inbound: the webhooks of the identity management system.
pub mod Webhook
pub mod Operation
