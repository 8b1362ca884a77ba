-- ===== src/Campaign.antt =====
-- Planning and running a campaign of benchmark runs (main.py).
pub mod Schedule
pub mod Eligibility
pub mod Attempts
pub mod Run
pub mod Nodes
mod Tests
