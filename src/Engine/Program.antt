-- ===== src/Engine/Program.antt =====
-- src/engine/engine.ts: the nodes that a builtin program carries out.
pub mod Parameters
pub mod Running
pub mod Resolving
pub mod Invoked
pub mod Resolved
pub mod Ran
pub mod Handler
