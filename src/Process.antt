-- ===== src/Process.antt =====
-- Starting, watching and stopping the processes of a run (main.py).
pub mod Node
pub mod Shutdown
pub mod Workload
pub mod Launch
pub mod Remote
pub mod Local
