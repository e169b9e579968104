-- ===== src/Admin.antt =====
-- admin: what administrators may see and do.
pub mod Rbac
pub mod Service
pub mod TargetConfig
pub mod TargetRows
pub mod TargetSystems
pub mod FleetRows
pub mod FleetDtos
pub mod FleetChecks
pub mod FleetGuards
pub mod Fleet
pub mod FleetLists
