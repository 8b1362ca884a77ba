-- ===== src/Verdict.antt =====
-- The verdicts on a run (main.py): what of its counters, statistics and node states makes it invalid.
pub mod Notes
pub mod Throttle
pub mod State
pub mod Stats
pub mod Validity
pub mod Message
pub mod Qualification
mod Tests
