-- ===== src/Process/Launch/Tests.antt =====
-- Runs of `LocalNode.start_process` and `wait_for_local_pid_file` (main.py) on concrete systems.
use net_latency_lab.Base.{ℕ, ◌+◌, ◌≤◌, ◌≡◌, refl, true, String, none, some, Option, [], ◌∷◌, arith}
use net_latency_lab.Base.Int.{ℤ, pos}
use net_latency_lab.Python.Error.{Error, ok, err}
use net_latency_lab.Python.Spaces.{strip, read_int}
use net_latency_lab.Python.Stateful.{lift, ◌>>=◌}
use net_latency_lab.Process.Launch.{
  Request, History, System, published, read_clock, poll_pid_file, wait_for_local_pid_file,
  start_process, exit_message, perform, spawn_child, published_or_reaped, read_pid, check_child,
  reap, terminate,
}
use net_latency_lab.Process.Launch.Reaped.{orphans, orphans-start_process}
use net_latency_lab.Process.Launch.Fuel.{IsTimed, wait_for_local_pid_file-poll_pid_file}

-- The time that a history slept.
abbrev slept : History → ℕ
slept [] = 0
slept (Request.sleep t ∷ h) = slept h + t
slept (_ ∷ h) = slept h

-- The wrapper publishes the PID that `answer` gives it, and exits with status 3 if `gone`.
abbrev system_of : Option String → Option ℤ → System
system_of answer gone = record {
  done = λ h. ok tt;
  spawned = λ h. ok 100;
  text = λ h. ok answer;
  status = λ h. gone;
  signalled = λ h. ok true;
  clock = slept;
}

published_spaces : published (ok (some " 101\n")) ≡ ok (some 101)
unfolding published strip read_int
published_spaces = refl

published_zero : published (ok (some "0")) ≡ ok none
unfolding published strip read_int
published_zero = refl

abbrev failing : System
failing = system_of none (some (pos 3))

start_process_exited :
    (start_process failing ("perf" ∷ "stat" ∷ "receiver" ∷ []) "r.log" (some (pos 2)) []).0
    ≡ err (Error.runtime_error (exit_message (pos 3)))
unfolding start_process ◌>>=◌ perform lift spawn_child published_or_reaped wait_for_local_pid_file
    read_clock poll_pid_file read_pid published check_child reap terminate
start_process_exited = refl

orphans-start_process_example :
    orphans failing
      (start_process failing ("perf" ∷ "stat" ∷ "receiver" ∷ []) "r.log" (some (pos 2)) []).1
    ≡ []
orphans-start_process_example =
    orphans-start_process failing ("perf" ∷ "stat" ∷ "receiver" ∷ []) "r.log" (some (pos 2))
      (Error.runtime_error (exit_message (pos 3))) [] refl start_process_exited

abbrev silent : System
silent = system_of none none

slept-advances : (request : Request) (h : History) → slept h ≤ slept (request ∷ h)
slept-advances (Request.make_parent path) h = omega arith
slept-advances (Request.unlink path) h = omega arith
slept-advances (Request.open_log path) h = omega arith
slept-advances (Request.read_text path) h = omega arith
slept-advances (Request.spawn command) h = omega arith
slept-advances Request.poll_child h = omega arith
slept-advances Request.close_log h = omega arith
slept-advances Request.monotonic h = omega arith
slept-advances (Request.sleep t) h = omega arith
slept-advances (Request.terminate_group pid) h = omega arith
slept-advances (Request.wait_child t) h = omega arith

silent-IsTimed : IsTimed silent
silent-IsTimed = record { advances = slept-advances; sleeps = λ t h. omega arith }

wait_for_local_pid_file-poll_pid_file_example :
    wait_for_local_pid_file silent "r.log.workload.pid" 30_000_000 []
    ≡ (read_clock silent >>= λ start.
          poll_pid_file silent 9 "r.log.workload.pid" (start + 30_000_000))
        []
wait_for_local_pid_file-poll_pid_file_example =
    wait_for_local_pid_file-poll_pid_file silent silent-IsTimed "r.log.workload.pid" 30_000_000 9 []
      (omega arith)
