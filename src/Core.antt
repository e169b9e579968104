-- ===== src/Core.antt =====
-- src/core: the state that the processing pipeline shares, and the services that change it.
pub mod World
pub mod Metrics
pub mod Retry
pub mod Dlq
pub mod Idempotency
pub mod Processing
