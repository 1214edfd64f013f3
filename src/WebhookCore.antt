-- ===== src/WebhookCore.antt =====
-- The webhookcore package.
pub mod Store
pub mod Replay
pub mod Dedup
pub mod Http
pub mod Core
pub mod Probes
pub mod Recorder
pub mod Logs
