-- ===== src/Config.antt =====
-- `validate_config` of main.py, on the values that a YAML file may hold.
pub mod Value
pub mod Global
pub mod Runtime
pub mod Benchmark
pub mod Sender
pub mod Validate
pub mod Checked
mod Tests
