-- ===== src/Process/Launch.antt =====
-- `LocalNode.start_process` and `wait_for_local_pid_file` (main.py), on the requests that they make of
-- the operating system. What it answers may depend on every request before.
pub mod Reaped
pub mod Fuel
mod Tests
use net_latency_lab.Base.{
  ℕ, zero, suc, ◌+◌, ◌/◌, String, Bool, true, false, Option, none, some, List, ◌∷◌, [], ltb,
  if◌then◌else◌,
}
use net_latency_lab.Base.Int.{ℤ, pos, pos_part, leb_ℤ}
use net_latency_lab.Python.Error.{Error, Result, ok, err}
use net_latency_lab.Python.Show.{concat, str_int}
use net_latency_lab.Python.Spaces.{strip, read_int}
use net_latency_lab.Python.Stateful.{Stateful, lift, give, ended, ◌>>=◌, ◌>>◌}
use net_latency_lab.Process.Node.{ProcessHandle}
use net_latency_lab.Process.Workload.{is_blank, instrument_workload}
use Prim.Native.String.{◌++◌ as str_append}

pub data Request : Type 0 where
  make_parent unlink open_log read_text : String → Request
  spawn : List String → Request
  poll_child close_log monotonic : Request
  sleep : ℕ → Request
  -- `os.killpg(process.pid, signal.SIGTERM)`
  terminate_group : ℕ → Request
  wait_child : ℕ → Request

-- Newest request first.
abbrev pub History : Type 0
History = List Request

-- The answer to the newest request of a history. Times are in nanoseconds.
pub record System : Type 0 where
  -- the requests on files that return nothing of interest, and the waits
  pub done : History → Result (Unit {0})
  -- `subprocess.Popen(...)`: the PID
  pub spawned : History → Result ℕ
  -- `path.read_text()`: none if it raises FileNotFoundError
  pub text : History → Result (Option String)
  -- `process.poll()`
  pub status : History → Option ℤ
  -- false if `os.killpg` raises ProcessLookupError
  pub signalled : History → Result Bool
  pub clock : History → ℕ

abbrev pub Launch : Type 0 → Type 0
Launch A = Stateful History A

unfoldable pub ask : {A : Type 0} → Request → (History → Result A) → Launch A
ask request answer h = (answer (request ∷ h), request ∷ h)

-- `except (FileNotFoundError, ValueError): pass`
abbrev pub pid_of : Result ℤ → Result (Option ℕ)
pid_of (ok pid) = if leb_ℤ pid (pos 0) then ok none else ok (some (pos_part pid))
pid_of (err (Error.value_error message)) = ok none
pid_of (err exc) = err exc

unfoldable pub published : Result (Option String) → Result (Option ℕ)
published (ok none) = ok none
published (ok (some text)) =
    let value = strip text in if is_blank value then ok none else pid_of (read_int value)
published (err (Error.value_error message)) = ok none
published (err exc) = err exc

-- `time.sleep(0.01)`
abbrev pub pid_interval : ℕ
pid_interval = 10_000_000

abbrev pub exit_message : ℤ → String
exit_message status = concat (
    "Profile wrapper exited with status "
    ∷ str_int status
    ∷ " before publishing its workload PID"
    ∷ [])

abbrev pub workload_pid_path : String → Option ℤ → Option String
workload_pid_path log_path none = none
workload_pid_path log_path (some index) = some (str_append log_path ".workload.pid")

module _ (system : System) where
  unfoldable pub read_clock : Launch ℕ
  unfolding ask
  read_clock = ask Request.monotonic (λ h. ok (system.clock h))

  unfoldable pub read_pid : String → Launch (Option ℕ)
  unfolding ask
  read_pid path = ask (Request.read_text path) (λ h. published (system.text h))

  unfoldable pub check_child : Launch (Unit {0})
  unfolding ask
  check_child = ask Request.poll_child (λ h. elim (system.status h) [
    | some status ↦ err (Error.runtime_error (exit_message status))
    | none ↦ ok tt
  ])

  unfoldable pub sleep_for : ℕ → Launch (Unit {0})
  unfolding ask
  sleep_for t = ask (Request.sleep t) (λ h. ok tt)

  abbrev pub found_or : Option ℕ → Launch ℕ → Launch ℕ
  found_or (some pid) again = give pid
  found_or none again = check_child >> (sleep_for pid_interval >> again)

  abbrev pub before_deadline : Bool → String → Launch ℕ → Launch ℕ
  before_deadline false path again = lift (err Error.timeout_expired)
  before_deadline true path again = read_pid path >>= λ found. found_or found again

  -- The loop of `wait_for_local_pid_file`, over at most `rounds` polls.
  unfoldable pub poll_pid_file : ℕ → String → ℕ → Launch ℕ
  poll_pid_file zero path deadline = read_clock >>= λ now. lift (err Error.timeout_expired)
  poll_pid_file (suc rounds) path deadline = read_clock >>= λ now.
      before_deadline (ltb now deadline) path (poll_pid_file rounds path deadline)

  unfoldable pub wait_for_local_pid_file : String → ℕ → Launch ℕ
  wait_for_local_pid_file path timeout =
      read_clock >>= λ start. poll_pid_file (timeout / pid_interval + 1) path (start + timeout)

  unfoldable pub perform : Request → Launch (Unit {0})
  unfolding ask
  perform request = ask request system.done

  unfoldable pub terminate : ℕ → Launch Bool
  unfolding ask
  terminate pid = ask (Request.terminate_group pid) system.signalled

  -- The `except` clause of `start_process`, up to its `raise`
  unfoldable pub reap : ℕ → Launch (Unit {0})
  reap pid =
      terminate pid >> (perform (Request.wait_child 2_000_000_000) >> perform Request.close_log)

  abbrev pub reraise : ℕ → Result ℕ × History → Result ℕ × History
  reraise pid (ok workload_pid, h) = (ok workload_pid, h)
  reraise pid (err exc, h) = ended (err exc) (reap pid h)

  unfoldable pub published_or_reaped : ℕ → String → Launch ℕ
  published_or_reaped pid path h = reraise pid (wait_for_local_pid_file path 10_000_000_000 h)

  unfoldable pub spawn_child : List String → Launch ℕ
  unfolding ask
  spawn_child command = ask (Request.spawn command) system.spawned

  abbrev pub unlink_stale : Option String → Launch (Unit {0})
  unlink_stale none = give tt
  unlink_stale (some path) = perform (Request.unlink path)

  abbrev pub tracked : ℕ → Option String → Launch (Option ℕ)
  tracked pid none = give none
  tracked pid (some path) = published_or_reaped pid path >>= λ workload. give (some workload)

  unfoldable pub start_process : List String → String → Option ℤ → Launch ProcessHandle
  unfolding instrument_workload
  start_process command log_path index =
      let path = workload_pid_path log_path index in
      perform (Request.make_parent log_path)
      >> (lift (instrument_workload command index path) >>= λ actual_command.
          unlink_stale path
          >> (perform (Request.open_log log_path)
              >> (spawn_child actual_command >>= λ pid. tracked pid path >>= λ workload.
                  give (record {
                    pid = pid;
                    command = command;
                    log_path = log_path;
                    monitor_pid = none;
                    workload_pid = workload;
                  }))))
