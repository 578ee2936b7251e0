-- ===== src/Integrations.antt =====
-- The service that performs external effects: integrations/src/integrations/.
pub mod Catalogue
pub mod Access
pub mod Jobs
pub mod Attempts
pub mod Leg
pub mod Envelope
pub mod Consumer
pub mod Egress
pub mod Normalization
pub mod Seam
