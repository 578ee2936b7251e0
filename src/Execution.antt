-- ===== src/Execution.antt =====
-- The execution of an authorized operation by the orchestrator: ragcore/src/ragcore/execution.
pub mod Idempotency
pub mod SampleFlow
pub mod Legs
