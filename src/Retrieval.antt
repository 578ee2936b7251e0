-- ===== src/Retrieval.antt =====
-- Retrieval and its confidence: ragcore/src/ragcore/retrieval/.
pub mod Scores
pub mod Confidence
pub mod Rerank
pub mod Hybrid
