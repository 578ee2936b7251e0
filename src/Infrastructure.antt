-- ===== src/Infrastructure.antt =====
-- What the services run on: ragcore/src/ragcore/infrastructure/.
pub mod Cache
