-- ===== src/Contracts.antt =====
-- The gate on changes of the published contracts: build/scripts/openapi_diff.py.
pub mod Documents
pub mod Compare
pub mod Approved
