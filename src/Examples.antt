-- ===== src/Examples.antt =====
-- The theorems at concrete zones, connectors and records.
mod Corefiles
mod Workloads
pub mod Zones
mod Records
mod Updates
mod Connectors
mod Systems
mod Joined
mod Published
mod Copies
mod Managers
mod Backups
mod Told
