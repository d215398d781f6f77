-- ===== src/State.antt =====
-- src/state: what may be persisted (invariants.ts), and the store that persists it (store.ts).
pub mod Schema
pub mod Tests
pub mod Checks
pub mod Invariants
pub mod Valid
pub mod Store
