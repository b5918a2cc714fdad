-- ===== src/Alerts.antt =====
-- apps/linsightd/src/alerts.rs: the rules, the engine that evaluates them on every sample, and the
-- targets that it notifies.
pub mod Split
pub mod Webhook
pub mod Notify
pub mod Engine
pub mod Firing
