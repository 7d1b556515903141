-- ===== src/Business.antt =====
-- business_actions.py: bounded customer replies and outreach follow-ups.
pub mod Types
pub mod Service
