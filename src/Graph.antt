-- ===== src/Graph.antt =====
-- The agent graph: ragcore/src/ragcore/graph/.
pub mod State
pub mod Scope
pub mod Ports
pub mod Nodes
pub mod Builder
pub mod Threads
