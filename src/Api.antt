-- ===== src/Api.antt =====
-- The published interface documents: ragcore/src/ragcore/api/openapi.py.
pub mod Components
pub mod Authority
pub mod Identity
pub mod Correlation
pub mod Disclosure
pub mod Positions
pub mod Problems
