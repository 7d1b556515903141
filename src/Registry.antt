-- ===== src/Registry.antt =====
-- registry_watch.py: the watch of registered public sources.
pub mod Types
pub mod Decode
pub mod Segments
pub mod Actions
pub mod Store
pub mod Documents
pub mod Records
pub mod Runs
pub mod Briefs
pub mod Gemini
pub mod Channels
pub mod Engine
pub mod Listing
pub mod Overview
pub mod Html
pub mod Sources
