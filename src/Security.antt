-- ===== src/Security.antt =====
-- security: masking secrets in configurations, and rules on addresses.
pub mod Redaction
pub mod Addresses
