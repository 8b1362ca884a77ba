-- ===== src/Process/Local/Tests.antt =====
-- A process of `LocalNode` (main.py) that is signalled, and waited for in vain and then with success.
use net_latency_lab.Base.{ℕ, suc, ltb, if◌then◌else◌, ◌≡◌, refl, true, false, none, some, [], ◌∷◌}
use net_latency_lab.Base.Int.{pos}
use net_latency_lab.Python.Error.{Error, ok, err}
use net_latency_lab.Python.Stateful.{◌>>=◌, give, try_finally}
use net_latency_lab.Process.Node.{ProcessHandle, wrapper_pid, sigint, sigkill}
use net_latency_lab.Process.Local.{
  wait_child, poll_child, close_log, kill_group, History, System, delivered, Objects, ask, poll,
  close_stream, close_if_ended, finish_log, await_child, assert_process, send, send_if,
  signal_target, wait_process, signal_process, signal_wrapper,
}
use net_latency_lab.Process.Local.Tidy.{
  no_call, waiting, signalling, signalling_wrapper, IsSafe, streams, reached-IsSafe,
}

-- The waits that a history made.
abbrev waits : History → ℕ
waits [] = 0
waits (wait_child t ∷ h) = suc (waits h)
waits (request ∷ h) = waits h

-- The second wait is in time.
abbrev patient : System
patient = record {
  waited = λ h. if ltb 1 (waits h) then ok (pos 0) else err Error.timeout_expired;
  status = λ h. if ltb 1 (waits h) then some (pos 0) else none;
  sent = λ h. ok delivered;
  found = λ h. ok true;
  content = λ h. ok [];
  done = λ h. ok tt;
}

abbrev sender_handle : ProcessHandle
sender_handle = record {
  pid = 200;
  command = "sender" ∷ [];
  log_path = "sender.log";
  monitor_pid = none;
  workload_pid = none;
}

abbrev started : Objects
started = record { has_process = true; log_stream = true; history = [] }

abbrev once : Objects
once = (wait_process patient 1_000_000_000 started).1

abbrev signalled_once : Objects
signalled_once = (signal_process patient sender_handle sigint once).1

abbrev twice : Objects
twice = (wait_process patient 1_000_000_000 signalled_once).1

abbrev thrice : Objects
thrice = (signal_wrapper patient sender_handle sigkill twice).1

-- The signal to the wrapper that has ended is left out.
thrice_history : thrice ≡ record {
  has_process = true;
  log_stream = false;
  history =
      poll_child
      ∷ close_log
      ∷ poll_child
      ∷ wait_child 1_000_000_000
      ∷ kill_group 200 sigint
      ∷ poll_child
      ∷ poll_child
      ∷ wait_child 1_000_000_000
      ∷ [];
}
unfolding wait_process signal_process signal_wrapper ◌>>=◌ give try_finally ask poll close_stream
    close_if_ended finish_log await_child assert_process send send_if signal_target wrapper_pid
thrice_history = refl

reached-IsSafe_example :
    IsSafe patient sender_handle thrice.history × (streams patient thrice ≡ streams patient started)
reached-IsSafe_example = reached-IsSafe patient sender_handle started tt (
    signalling_wrapper sigkill
      (waiting 1_000_000_000 (signalling sigint (waiting 1_000_000_000 no_call))))
