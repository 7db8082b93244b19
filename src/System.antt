-- ===== src/System.antt =====
-- The three reconcilers at work on one API server, with its users: internal/controller.
pub mod Meanwhile
pub mod Steps
pub mod Served
