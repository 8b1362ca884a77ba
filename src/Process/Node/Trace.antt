-- ===== src/Process/Node/Trace.antt =====
-- What a history of calls shows: the signals sent, and the last answers of the probes.
use net_latency_lab.Base.{ℕ, Bool, Option, none, some, List, [], ◌∷◌}
use net_latency_lab.Base.Int.{ℤ}
use net_latency_lab.Python.Error.{Result}
use net_latency_lab.Process.Node.{
  Signal, signal_process, signal_wrapper, wait_process, process_exists, History, Node,
}

-- A signal, and whether the process or its wrapper was its target.
pub data Sent : Type 0 where
  to_process to_wrapper : Signal → Sent

-- Newest first, as the history.
abbrev pub signals : History → List Sent
signals [] = []
signals (signal_process _ s ∷ h) = to_process s ∷ signals h
signals (signal_wrapper _ s ∷ h) = to_wrapper s ∷ signals h
signals (_ ∷ h) = signals h

module _ (node : Node) where
  -- What the last `wait_process` answered.
  abbrev pub last_wait : History → Option (Result ℤ)
  last_wait [] = none
  last_wait (wait_process handle t ∷ h) = some (node.waited (wait_process handle t ∷ h))
  last_wait (_ ∷ h) = last_wait h

  -- What the last existence probe answered, of whatever PID.
  abbrev pub last_exists : History → Option (ℕ × Result Bool)
  last_exists [] = none
  last_exists (process_exists pid ∷ h) = some (pid, node.exists (process_exists pid ∷ h))
  last_exists (_ ∷ h) = last_exists h
