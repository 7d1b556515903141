-- ===== src/Provider.antt =====
-- The provider's fixed canary and the evidence of it.
pub mod Model
pub mod Canary
pub mod Evidence
pub mod Composed
pub mod Bounds
