-- ===== src/Zone.antt =====
-- The zone file: how it is built and compared.
pub mod Construction
pub mod Compare
pub mod Update
pub mod Reconcile
pub mod Honest
pub mod Serial
pub mod Told
pub mod Joined
pub mod Published
