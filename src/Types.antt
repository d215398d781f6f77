-- ===== src/Types.antt =====
-- src/types.ts: the domain types of agent-workflow/v3 and the functions that stand beside them.
pub mod Limits
pub mod Routes
pub mod Graph
pub mod Programs
pub mod Execution
pub mod Run
pub mod Claims
