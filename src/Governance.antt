-- ===== src/Governance.antt =====
-- Deterministic governance: ragcore/src/ragcore/governance/.
pub mod Catalogue
pub mod Conditions
pub mod Policy
pub mod Gate
