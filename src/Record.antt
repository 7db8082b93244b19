-- ===== src/Record.antt =====
-- The DNSRecord controller.
pub mod Validation
pub mod Reconcile
pub mod Stored
pub mod Lifecycle
pub mod Honest
