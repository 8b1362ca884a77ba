-- ===== src/Traces.antt =====
-- Binary traces and what is derived from them (analysis/latency_utils.py).
pub mod Bytes
pub mod Load
pub mod Metrics
pub mod Sequence
mod Tests
