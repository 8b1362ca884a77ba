-- ===== src/Process/Remote.antt =====
-- How `RemoteNode` (main.py) waits for a process, signals it and probes it, on the shell commands that it
-- executes over SSH. What `_exec` comes to may depend on everything before; its text is stripped.
pub mod Waited
pub mod Start
mod Tests
use net_latency_lab.Base.{
  ℕ, zero, suc, ◌+◌, ◌/◌, String, Bool, true, false, Option, none, some, List, ◌∷◌, [], map, ltb,
  if◌then◌else◌,
}
use net_latency_lab.Base.Int.{ℤ}
use net_latency_lab.Python.Error.{Error, Result, ok, err}
use net_latency_lab.Python.Show.{concat, join, str_nat}
use net_latency_lab.Python.Spaces.{read_int}
use net_latency_lab.Python.Stateful.{Stateful, lift, give, ◌>>=◌, ◌>>◌}
use net_latency_lab.Process.Node.{ProcessHandle, wrapper_pid, Signal, sigint, sigterm, sigkill}
use net_latency_lab.Process.Workload.{quote}
use Prim.Native.String.{◌++◌ as str_append}
use text.Mathlib.Text.{◌==◌}

pub data Step : Type 0 where
  exec : String → Step
  sleep : ℕ → Step
  monotonic : Step

-- Newest step first.
abbrev pub History : Type 0
History = List Step

-- The answer to the newest step of a history. Times are in nanoseconds.
pub record Host : Type 0 where
  pub output : History → Result String
  pub clock : History → ℕ

abbrev pub Remote : Type 0 → Type 0
Remote A = Stateful History A

abbrev pub status_path : ProcessHandle → String
status_path handle = str_append handle.log_path ".status"

abbrev pub monitor_check : Option ℕ → String
monitor_check none = ""
monitor_check (some pid) =
    concat ("elif kill -0 " ∷ str_nat pid ∷ " 2>/dev/null; then echo running; " ∷ [])

abbrev pub wait_command : ProcessHandle → String
wait_command handle = concat (
    "if test -s "
    ∷ quote (status_path handle)
    ∷ "; then cat "
    ∷ quote (status_path handle)
    ∷ "; "
    ∷ "elif kill -0 "
    ∷ str_nat handle.pid
    ∷ " 2>/dev/null; then echo running; "
    ∷ monitor_check handle.monitor_pid
    ∷ "else echo exited; fi"
    ∷ [])

-- `signal.Signals(signum).name.removeprefix("SIG")`
abbrev pub signal_name : Signal → String
signal_name sigint = "INT"
signal_name sigterm = "TERM"
signal_name sigkill = "KILL"

abbrev pub signal_target : ProcessHandle → Option ℕ → String
signal_target handle (some pid) = str_nat pid
signal_target handle none = str_append "-" (str_nat handle.pid)

abbrev pub kill_command : Signal → String → String
kill_command signum target =
    concat ("kill -" ∷ signal_name signum ∷ " " ∷ target ∷ " 2>/dev/null || true" ∷ [])

-- `time.sleep(0.05)`
abbrev pub status_interval : ℕ
status_interval = 50_000_000

abbrev pub exited_message : ProcessHandle → String
exited_message handle = concat ("Remote PID " ∷ str_nat handle.pid ∷ " exited without status" ∷ [])

module _ (host : Host) where
  unfoldable pub exec_over_ssh : String → Remote String
  exec_over_ssh command h = (host.output (Step.exec command ∷ h), Step.exec command ∷ h)

  unfoldable pub sleep_for : ℕ → Remote (Unit {0})
  sleep_for t h = (ok tt, Step.sleep t ∷ h)

  unfoldable pub read_clock : Remote ℕ
  read_clock h = (ok (host.clock (Step.monotonic ∷ h)), Step.monotonic ∷ h)

  unfoldable pub settle : ProcessHandle → String → Remote ℤ → Remote ℤ
  settle handle output again =
      if output == "running"
      then (sleep_for status_interval >> again)
      else if output == "exited"
      then lift (err (Error.runtime_error (exited_message handle)))
      else lift (read_int output)

  abbrev pub poll_if : Bool → ProcessHandle → Remote ℤ → Remote ℤ
  poll_if false handle again = lift (err Error.timeout_expired)
  poll_if true handle again =
      exec_over_ssh (wait_command handle) >>= λ output. settle handle output again

  -- The loop of `wait_process`, over at most `rounds` polls.
  unfoldable pub poll_status : ℕ → ProcessHandle → ℕ → Remote ℤ
  poll_status zero handle deadline = read_clock >>= λ now. lift (err Error.timeout_expired)
  poll_status (suc rounds) handle deadline =
      read_clock >>= λ now. poll_if (ltb now deadline) handle (poll_status rounds handle deadline)

  unfoldable pub wait_process : ProcessHandle → ℕ → Remote ℤ
  wait_process handle timeout =
      read_clock >>= λ start. poll_status (timeout / status_interval + 1) handle (start + timeout)

  unfoldable pub signal_process : ProcessHandle → Signal → Remote (Unit {0})
  signal_process handle signum =
      exec_over_ssh (kill_command signum (signal_target handle handle.workload_pid)) >> give tt

  unfoldable pub signal_wrapper : ProcessHandle → Signal → Remote (Unit {0})
  signal_wrapper handle signum =
      exec_over_ssh (kill_command signum (str_nat (wrapper_pid handle))) >> give tt

  unfoldable pub process_exists : ℕ → Remote Bool
  process_exists pid =
      exec_over_ssh (
        concat ("if kill -0 " ∷ str_nat pid ∷ " 2>/dev/null; then echo yes; else echo no; fi" ∷ []))
      >>= λ output. give (output == "yes")

  unfoldable pub remove_files : List String → Remote (Unit {0})
  remove_files [] = give tt
  remove_files (path ∷ paths) =
      exec_over_ssh (str_append "rm -f -- " (join " " (map quote (path ∷ paths)))) >> give tt
