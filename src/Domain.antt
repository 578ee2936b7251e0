-- ===== src/Domain.antt =====
-- The pure domain of the orchestrator: ragcore/src/ragcore/domain/.
pub mod Treatment
pub mod Authority
pub mod Roles
pub mod Work
pub mod Session
pub mod Records
pub mod Envelopes
