-- ===== src/Workers.antt =====
-- The workers' passes: ragcore/workers.
pub mod Expiry
pub mod Dispatch
pub mod Conclusions
pub mod Retention
