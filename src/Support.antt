-- ===== src/Support.antt =====
-- support_loop.py: the synthetic support loop.
pub mod Loop
