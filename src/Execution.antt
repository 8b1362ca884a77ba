-- ===== src/Execution.antt =====
-- One run of a campaign: `execute_run` of main.py, with the commands that it starts.
pub mod Commands
pub mod Report
pub mod Lab
pub mod Plan
pub mod Measure
pub mod Metadata
pub mod Collect
pub mod Run
pub mod Stable
mod Fixtures
mod Tests
