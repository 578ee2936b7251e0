-- ===== src/Persistence.antt =====
-- The tables and the repositories that write them: ragcore/src/ragcore/persistence.
pub mod Rows
pub mod Guard
pub mod WorkItems
pub mod Catalogue
pub mod Approvals
pub mod Consents
pub mod Erasure
pub mod Retention
pub mod Audit
pub mod Feedback
pub mod Tenants
pub mod Instructions
