-- ===== src/Process/Local.antt =====
-- How `LocalNode` (main.py) waits for a process, signals it and probes it, and handles files, on the requests
-- that it makes of the operating system. What it answers may depend on every request before.
pub mod Tidy
mod Tests
use net_latency_lab.Base.{
  ℕ, String, Bool, true, false, not, Option, none, some, List, ◌∷◌, [], ◌&&◌, if◌then◌else◌,
}
use net_latency_lab.Base.Int.{ℤ}
use net_latency_lab.Python.Error.{Error, Result, ok, err, raise_if}
use net_latency_lab.Python.Error.{◌>>=◌ as then_result}
use net_latency_lab.Python.Paths.{PurePath, parent}
use net_latency_lab.Python.Stateful.{Stateful, give, try_finally, ◌>>=◌, ◌>>◌}
use net_latency_lab.Process.Node.{ProcessHandle, wrapper_pid, Signal}

pub data Request : Type 0 where
  wait_child : ℕ → Request
  poll_child close_log : Request
  -- `os.kill` of a PID, and `os.killpg` of a group
  kill kill_group : ℕ → Signal → Request
  -- `os.kill(pid, 0)`
  probe_pid : ℕ → Request
  is_file read_bytes unlink : String → Request
  make_parents : PurePath → Request
  write_bytes : PurePath → List ℕ → Request

-- Newest request first.
abbrev pub History : Type 0
History = List Request

-- ProcessLookupError and PermissionError of `os.kill` and `os.killpg` are answers of their own.
pub data Sent : Type 0 where
  delivered no_process not_permitted : Sent

-- The answer to the newest request of a history. Times are in nanoseconds.
pub record System : Type 0 where
  pub waited : History → Result ℤ
  pub status : History → Option ℤ
  pub sent : History → Result Sent
  pub found : History → Result Bool
  pub content : History → Result (List ℕ)
  -- the requests that return nothing of interest
  pub done : History → Result (Unit {0})

-- The two fields of a handle that are objects of this process, and what was asked so far.
pub record Objects : Type 0 where
  pub has_process : Bool
  -- The log is open, and held by the handle
  pub log_stream : Bool
  pub history : History

abbrev pub asked : Request → Objects → Objects
asked request s = record s { history = request ∷ s.history }

abbrev pub Local : Type 0 → Type 0
Local A = Stateful Objects A

unfoldable pub ask : {A : Type 0} → Request → (History → Result A) → Local A
ask request answer s = (answer (request ∷ s.history), asked request s)

abbrev pub is_running : Option ℤ → Bool
is_running none = true
is_running (some status) = false

-- `except ProcessLookupError: pass`
abbrev pub pass_lookup : Sent → Result (Unit {0})
pass_lookup delivered = ok tt
pass_lookup no_process = ok tt
pass_lookup not_permitted = err Error.os_error

abbrev pub is_alive : Sent → Result Bool
is_alive delivered = ok true
is_alive no_process = ok false
is_alive not_permitted = ok true

-- `handle.log_stream = None`, after the close that returned
abbrev pub released : Result (Unit {0}) → Objects → Objects
released (ok _) s = record s { log_stream = false }
released (err exc) s = s

-- `assert handle.process is not None`
unfoldable pub assert_process : Local (Unit {0})
assert_process s = (raise_if (not s.has_process) Error.assertion_error, s)

module _ (system : System) where
  abbrev pub signalled : History → Result (Unit {0})
  signalled h = then_result (system.sent h) pass_lookup

  abbrev pub exists : History → Result Bool
  exists h = then_result (system.sent h) is_alive

  abbrev pub present : History → Result (Unit {0})
  present h = then_result (system.found h) (λ there. raise_if (not there) Error.os_error)

  unfoldable pub poll : Local (Option ℤ)
  unfolding ask
  poll = ask Request.poll_child (λ h. ok (system.status h))

  unfoldable pub close_stream : Local (Unit {0})
  close_stream s =
      let h = Request.close_log ∷ s.history in
      (system.done h, released (system.done h) (asked Request.close_log s))

  unfoldable pub close_if_ended : Option ℤ → Local (Unit {0})
  unfolding close_stream give
  close_if_ended status s =
      let closed = close_stream s in
      if not (is_running status) && s.log_stream then closed else (ok tt, s)

  unfoldable pub finish_log : Local (Unit {0})
  unfolding poll close_if_ended
  finish_log = poll >>= close_if_ended

  unfoldable pub await_child : ℕ → Local ℤ
  unfolding ask
  await_child timeout = ask (Request.wait_child timeout) system.waited

  unfoldable pub wait_process : ℕ → Local ℤ
  unfolding assert_process await_child finish_log
  wait_process timeout = assert_process >> try_finally (await_child timeout) finish_log

  unfoldable pub send : Request → Local (Unit {0})
  unfolding ask
  send request = ask request signalled

  unfoldable pub send_if : Request → Option ℤ → Local (Unit {0})
  unfolding send give
  send_if request status = if is_running status then send request else give tt

  unfoldable pub signal_target : ProcessHandle → Option ℕ → Signal → Local (Unit {0})
  unfolding send poll send_if
  signal_target handle (some pid) signum = send (Request.kill pid signum)
  signal_target handle none signum = poll >>= send_if (Request.kill_group handle.pid signum)

  unfoldable pub signal_process : ProcessHandle → Signal → Local (Unit {0})
  unfolding assert_process signal_target
  signal_process handle signum = assert_process >> signal_target handle handle.workload_pid signum

  unfoldable pub signal_wrapper : ProcessHandle → Signal → Local (Unit {0})
  unfolding assert_process poll send_if wrapper_pid
  signal_wrapper handle signum =
      assert_process >> (poll >>= send_if (Request.kill (wrapper_pid handle) signum))

  unfoldable pub process_exists : ℕ → Local Bool
  unfolding ask
  process_exists pid = ask (Request.probe_pid pid) exists

  unfoldable pub perform : Request → Local (Unit {0})
  unfolding ask
  perform request = ask request system.done

  unfoldable pub require_file : String → Local (Unit {0})
  unfolding ask
  require_file source = ask (Request.is_file source) present

  unfoldable pub read_content : String → Local (List ℕ)
  unfolding ask
  read_content source = ask (Request.read_bytes source) system.content

  unfoldable pub fetch_file : String → PurePath → Local (Unit {0})
  unfolding require_file perform read_content
  fetch_file source destination =
      require_file source
      >> (perform (Request.make_parents (parent destination))
          >> (read_content source >>= λ bytes. perform (Request.write_bytes destination bytes)))

  unfoldable pub remove_files : List String → Local (Unit {0})
  unfolding perform give
  remove_files [] = give tt
  remove_files (path ∷ paths) = perform (Request.unlink path) >> remove_files paths
