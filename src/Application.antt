-- ===== src/Application.antt =====
-- The application's operations over its ports: ragcore/src/ragcore/application/.
pub mod Sessions
pub mod Audit
pub mod Cases
pub mod Escalation
