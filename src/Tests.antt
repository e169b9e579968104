-- ===== src/Tests.antt =====
-- Concrete runs of the pipeline.
pub mod Fixtures
mod Queue
mod Locking
mod Networks
mod Pipeline
mod Retrying
mod Administration
mod Records
mod Routing
mod Encryption
mod Targets
mod Sessions
mod Fleet
