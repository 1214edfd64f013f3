-- ===== src/LogBridge.antt =====
-- The log bridge, logbridge: worker output lines become log entries, redacted by one registry of
-- secrets, and a hub fans them out.
pub mod Hub
pub mod Bridge
pub mod Redactors
pub mod Pipeline
