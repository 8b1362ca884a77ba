-- ===== src/Profiles.antt =====
-- The evidence of profiled runs (analysis/profile_tools.py).
pub mod Fields
pub mod Session
mod Tests
