-- ===== src/Pacing.antt =====
-- The pacing trace of the sender (main.py): percentiles and the analysis of its windows.
pub mod Rank
pub mod Report
mod Tests
