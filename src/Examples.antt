-- ===== src/Examples.antt =====
-- Concrete inputs, tests of the definitions on them, and the theorems applied to them.
mod Inputs
mod Domain
mod Gate
mod Graph
mod Integrations
mod Persistence
mod Messaging
mod Api
mod Approvals
mod Catalogue
mod Retrieval
mod Application
mod Egress
mod Contracts
mod Audit
mod Retention
