-- ===== src/Claims.antt =====
-- claim_store.py: what callers have of a claim store (the protocol `ClaimStore`). Two stores fill
-- the interface: Memory.antt and Firestore.antt.
pub mod Scope
pub mod Memory
pub mod Firestore
pub mod Once
pub mod Refine
