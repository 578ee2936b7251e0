-- ===== src/Egress.antt =====
-- Outbound calls and what comes back of them: ragcore/src/ragcore/egress/.
pub mod Resilient
pub mod Validation
