-- ===== src/Plugin.antt =====
-- src/plugin: what the plugin derives from the session logs, and what it lets a session call.
pub mod Turnbind
pub mod Lifecycle
