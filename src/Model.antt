-- ===== src/Model.antt =====
-- The language model and what stands before it: ragcore/src/ragcore/model/.
pub mod Safety
