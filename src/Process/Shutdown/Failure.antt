-- ===== src/Process/Shutdown/Failure.antt =====
-- How `shutdown_process` (main.py) fails: never before every allowed signal was sent.
use net_latency_lab.Base.{ℕ, ◌≡◌, ◌⊎◌, none, some, Bool, true}
use net_latency_lab.Base.Int.{ℤ}
use net_latency_lab.Python.Error.{Error, ok, err}
use net_latency_lab.Process.Node.{ProcessHandle, History, Node}
use net_latency_lab.Process.Node.Trace.{last_exists}
use net_latency_lab.Process.Shutdown.Escalation.{Climbs}

-- The only way in which the calls of a node fail is that a wait times out.
pub record OnlyTimesOut (node : Node) : Type 0 where
  pub signalled : (h : History) → node.signalled h ≡ ok tt
  pub exists : (h : History) → (b : Bool) × (node.exists h ≡ ok b)
  pub waited :
      (h : History)
      → (node.waited h ≡ err Error.timeout_expired) ⊎ ((status : ℤ) × (node.waited h ≡ ok status))

module _ (node : Node) (handle : ProcessHandle) where
  -- How a shutdown gives up: a process with no wrapper, or a workload that is still there, has
  -- had the three signals of the stages; else the wrapper has had both of its own too.
  pub data GivenUp (h h' : History) : Type 0 where
    untracked : handle.workload_pid ≡ none → Climbs node handle h h' 3 → GivenUp h h'
    alive :
        (pid : ℕ)
        → handle.workload_pid ≡ some pid
        → last_exists node h' ≡ some (pid, ok true)
        → Climbs node handle h h' 3
        → GivenUp h h'
    wrapper_alive :
        (pid : ℕ) → handle.workload_pid ≡ some pid → Climbs node handle h h' 5 → GivenUp h h'
