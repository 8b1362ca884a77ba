-- ===== src/Counters.antt =====
-- The kernel and network card counters (main.py): how a probe is read, and how two snapshots are compared.
pub mod Text
pub mod Sections
pub mod Parsing
pub mod Kernel
pub mod Snapshot
pub mod Deltas
mod Tests
