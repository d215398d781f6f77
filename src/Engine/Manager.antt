-- ===== src/Engine/Manager.antt =====
-- src/engine/engine.ts: what the Manager, and the host, do to a work order as a whole.
pub mod Blocking
pub mod Models
pub mod Ending
pub mod Recovery
pub mod Respawn
pub mod Rejudging
pub mod Returning
pub mod Resuming
pub mod Override
pub mod Final
pub mod Reconciled
