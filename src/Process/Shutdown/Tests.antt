-- ===== src/Process/Shutdown/Tests.antt =====
-- Runs of `shutdown_process` and `wait_pid_exit` (main.py) on concrete nodes.
use net_latency_lab.Base.{ℕ, ◌+◌, ◌≡◌, refl, true, false, none, some, [], ◌∷◌, arith}
use net_latency_lab.Base.Int.{ℤ, pos}
use net_latency_lab.Python.Error.{Error, Result, ok, err}
use net_latency_lab.Process.Node.{
  ProcessHandle, sigint, sigterm, sigkill, Call, History, Node, ◌>>=◌,
}
use net_latency_lab.Process.Node.Trace.{signals, to_process}
use net_latency_lab.Process.Shutdown.{
  escalation_timeout, poll_exit, wait_pid_exit, stage, run_stages, shutdown_process,
}
use net_latency_lab.Process.Shutdown.Escalation.{ClimbsLadder, shutdown_process_ladder}
use net_latency_lab.Process.Shutdown.Termination.{ClockAdvances, wait_pid_exit_enough}
use net_latency_lab.Process.Shutdown.Outcome.{IsStopped, shutdown_process-IsStopped}

abbrev profiled : ProcessHandle
profiled = record {
  pid = 100;
  command = "perf" ∷ "stat" ∷ "receiver_threaded" ∷ [];
  log_path = "receiver.log";
  monitor_pid = none;
  workload_pid = some 101;
}

abbrev slept : History → ℕ
slept [] = 0
slept (Call.sleep t ∷ h) = t + slept h
slept (_ ∷ h) = slept h

-- A process that only SIGKILL ends.
abbrev killed_only : History → Result ℤ
killed_only (_ ∷ Call.signal_process _ sigkill ∷ h) = ok (pos 137)
killed_only _ = err Error.timeout_expired

abbrev stubborn : Node
stubborn = record {
  signalled = λ h. ok tt;
  waited = killed_only;
  exists = λ h. ok false;
  clock = slept;
}

-- Processes that nothing ends.
abbrev immortal : Node
immortal = record {
  signalled = λ h. ok tt;
  waited = λ h. err Error.timeout_expired;
  exists = λ h. ok true;
  clock = slept;
}

abbrev second : ℕ
second = 1_000_000_000

-- SIGINT and SIGTERM time out, SIGKILL ends the process, and its wrapper is left alone.
stubborn-signals :
    signals (shutdown_process stubborn profiled second []).1
    ≡ to_process sigkill ∷ to_process sigterm ∷ to_process sigint ∷ []
unfolding shutdown_process run_stages ◌>>=◌ stage wait_pid_exit escalation_timeout
stubborn-signals = refl

shutdown_process_ladder_example :
    ClimbsLadder stubborn profiled [] (shutdown_process stubborn profiled second []).1
shutdown_process_ladder_example = shutdown_process_ladder stubborn profiled second []

shutdown_process-IsStopped_example :
    IsStopped stubborn profiled (pos 137) (shutdown_process stubborn profiled second []).1
unfolding shutdown_process run_stages ◌>>=◌ stage wait_pid_exit escalation_timeout
shutdown_process-IsStopped_example =
    shutdown_process-IsStopped stubborn profiled second [] (pos 137) refl

immortal-ClockAdvances : ClockAdvances immortal
immortal-ClockAdvances = record { steady = λ h. omega arith; slept = λ t pid h. omega arith }

wait_pid_exit_enough_example :
    poll_exit immortal 101 7 second (Call.monotonic ∷ []) ≡ wait_pid_exit immortal 7 second []
wait_pid_exit_enough_example =
    wait_pid_exit_enough immortal immortal-ClockAdvances 7 second 100 [] (omega arith)
