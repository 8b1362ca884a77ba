-- ===== src/Process/Remote/Tests.antt =====
-- Waits of `RemoteNode` (main.py) on a concrete host.
use net_latency_lab.Base.{
  ℕ, String, Option, none, List, ◌⊎◌, ◌+◌, ◌≤◌, ◌≡◌, refl, some, [], ◌∷◌, ltb, if◌then◌else◌, arith,
}
use net_latency_lab.Base.Int.{pos}
use net_latency_lab.Python.Error.{Error, ok, err}
use net_latency_lab.Python.Spaces.{read_int, split_words}
use net_latency_lab.Python.Stateful.{lift, give, ◌>>=◌}
use net_latency_lab.Process.Node.{ProcessHandle, sigint}
use net_latency_lab.Python.Show.{str_nat, join}
use net_latency_lab.Process.Workload.{instrument_workload, quote, all_safe, escaped}
use net_latency_lab.Process.Remote.{
  Step, History, Host, wait_process, signal_process, exec_over_ssh, wait_command,
}
use net_latency_lab.Process.Launch.{workload_pid_path}
use net_latency_lab.Process.Remote.Start.{launch_command, start_process}
use net_latency_lab.Process.Remote.Start.Killed.{Failed, start_process-Failed}
use net_latency_lab.Process.Remote.Waited.{IsTimed, at_once, later, wait_process-code}

-- The time that a history slept.
abbrev slept : History → ℕ
slept [] = 0
slept (Step.sleep t ∷ h) = slept h + t
slept (_ ∷ h) = slept h

-- A process that leaves the status 3 after 50 ms
abbrev brief : Host
brief = record {
  output = λ h. if ltb (slept h) 50_000_000 then ok "running" else ok "3";
  clock = slept;
}

abbrev remote_handle : ProcessHandle
remote_handle = record {
  pid = 100;
  command = "perf" ∷ "stat" ∷ [];
  log_path = "/tmp/run one.log";
  monitor_pid = some 99;
  workload_pid = some 101;
}

wait_command_tracked :
    wait_command remote_handle
    ≡ "if test -s '/tmp/run one.log.status'; then cat '/tmp/run one.log.status'; elif kill -0 100 2>/dev/null; then echo running; elif kill -0 99 2>/dev/null; then echo running; else echo exited; fi"
unfolding quote all_safe escaped str_nat
wait_command_tracked = refl

signal_process_tracked :
    signal_process brief remote_handle sigint []
    ≡ (ok tt, Step.exec "kill -INT 101 2>/dev/null || true" ∷ [])
unfolding signal_process ◌>>=◌ exec_over_ssh give str_nat
signal_process_tracked = refl

slept-advances : (step : Step) (h : History) → slept h ≤ slept (step ∷ h)
slept-advances (Step.exec command) h = omega arith
slept-advances (Step.sleep t) h = omega arith
slept-advances Step.monotonic h = omega arith

brief-IsTimed : IsTimed brief
brief-IsTimed = record { advances = slept-advances; sleeps = λ t h. omega arith }

three : read_int "3" ≡ ok (pos 3)
unfolding read_int
three = refl

wait_process-code_example : (wait_process brief remote_handle 200_000_000 []).0 ≡ ok (pos 3)
wait_process-code_example =
    wait_process-code brief brief-IsTimed remote_handle (pos 3) 200_000_000 []
      (later (omega arith) refl (at_once "3" (omega arith) refl refl refl three))

-- A host that prints one text for every command
abbrev printing : String → Host
printing text = record { output = λ h. ok text; clock = slept }

abbrev untracked_path : Option String
untracked_path = workload_pid_path "r.log" none

start_process_short :
    (start_process (printing "12") ("receiver" ∷ []) "r.log" none []).0
    ≡ err (Error.runtime_error "Remote process launch returned invalid PIDs: 12")
unfolding start_process ◌>>=◌ lift give exec_over_ssh split_words join
start_process_short = refl

start_process-Failed_example :
    ((start_process (printing "12") ("receiver" ∷ []) "r.log" none []).1 ≡ [])
    ⊎ ((actual : List String) × (instrument_workload ("receiver" ∷ []) none untracked_path
          ≡ ok actual)
        × Failed
            (printing "12")
            (launch_command actual "r.log" untracked_path)
            "r.log"
            untracked_path
            []
            (start_process (printing "12") ("receiver" ∷ []) "r.log" none []).1)
start_process-Failed_example =
    start_process-Failed (printing "12") ("receiver" ∷ []) "r.log" none
      (Error.runtime_error "Remote process launch returned invalid PIDs: 12") [] start_process_short

-- Two words of which one is no number: the group is not killed.
start_process_misread :
    (start_process (printing "12 x") ("receiver" ∷ []) "r.log" none []).1
    ≡ Step.exec (launch_command ("receiver" ∷ []) "r.log" none) ∷ []
unfolding start_process ◌>>=◌ lift split_words
start_process_misread = refl
