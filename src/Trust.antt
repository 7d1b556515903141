-- ===== src/Trust.antt =====
-- trust_engine.py: what a set of outcome receipts may earn.
pub mod Engine
