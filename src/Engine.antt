-- ===== src/Engine.antt =====
-- src/engine/engine.ts: the runtime of work orders.
pub mod Base
pub mod Block
pub mod Writes
pub mod Returns
pub mod Advance
pub mod Claim
pub mod Judging
pub mod Judges
pub mod Failover
pub mod TurnEnd
pub mod Manager
pub mod Program
