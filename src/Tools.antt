-- ===== src/Tools.antt =====
-- src/tools: what a session may call.
pub mod Authz
