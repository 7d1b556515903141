-- ===== src/Http.antt =====
-- fast_api_app.py: the routes that act, over the parts they call.
pub mod Types
pub mod Ingress
pub mod Worker
pub mod Demo
pub mod Private
