-- ===== src/Connector.antt =====
-- What the DNSConnector controller constructs.
pub mod Corefile
pub mod Volumes
pub mod Fetch
pub mod Backup
pub mod Health
pub mod Status
pub mod Reconcile
pub mod Safety
pub mod Honest
pub mod Healthy
pub mod Outcome
pub mod Told
pub mod Stats
pub mod Failures
pub mod Picked
pub mod Restored
pub mod Prepared
pub mod Deleted
