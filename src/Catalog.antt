-- ===== src/Catalog.antt =====
-- src/catalog: the validation of a workflow catalog.
pub mod Targets
pub mod Reachability
pub mod Cycles
pub mod Normalize
pub mod Problems
pub mod Validate
