-- ===== src/Warrants.antt =====
-- warrant_gateway.py: the Action Warrant gateway.
pub mod Types
pub mod Gateway
