-- ===== src/Events.antt =====
-- event_contracts.py: synthetic events, the policy, and the run record.
pub mod Types
pub mod Decode
pub mod Claiming
