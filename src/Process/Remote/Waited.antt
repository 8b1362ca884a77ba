-- ===== src/Process/Remote/Waited.antt =====
-- `RemoteNode.wait_process` (main.py) returns the status that the process left.
use net_latency_lab.Base.{
  ℕ, zero, suc, ◌+◌, ◌*◌, ◌/◌, ◌≤◌, ◌<◌, String, true, false, ◌∷◌, ◌≡◌, ltb, arith,
}
use net_latency_lab.Base.Int.{ℤ}
use net_latency_lab.Python.Error.{ok}
use net_latency_lab.Python.Spaces.{read_int}
use net_latency_lab.Python.Stateful.{lift, ◌>>=◌}
use net_latency_lab.Process.Node.{ProcessHandle}
use net_latency_lab.Process.Remote.{
  Step, History, Host, status_interval, wait_command, exec_over_ssh, sleep_for, read_clock, settle,
  poll_status, wait_process,
}
use text.Mathlib.Text.{◌==◌}

-- The clock never runs back, and a sleep lasts for the time that was asked.
pub record IsTimed (host : Host) : Type 0 where
  pub advances : (step : Step) (h : History) → host.clock h ≤ host.clock (step ∷ h)
  pub sleeps : (t : ℕ) (h : History) → host.clock h + t ≤ host.clock (Step.sleep t ∷ h)

-- The step that polls, after the reading of the clock.
abbrev pub polled : ProcessHandle → History → History
polled handle h = Step.exec (wait_command handle) ∷ Step.monotonic ∷ h

-- From `h` on, the host answers that the process is running until it answers with the status `code`, each
-- time before the deadline.
pub data Settles (host : Host) (handle : ProcessHandle) (deadline : ℕ) (code : ℤ)
    : History → Type 0 where
  at_once :
      {h : History}
      → (output : String) → host.clock (Step.monotonic ∷ h) < deadline
      → host.output (polled handle h) ≡ ok output
      → (output == "running") ≡ false
      → (output == "exited") ≡ false
      → read_int output ≡ ok code
      → Settles host handle deadline code h
  later :
      {h : History}
      → host.clock (Step.monotonic ∷ h) < deadline
      → host.output (polled handle h) ≡ ok "running"
      → Settles host handle deadline code (Step.sleep status_interval ∷ polled handle h)
      → Settles host handle deadline code h

module _ (host : Host) (timed : IsTimed host) (handle : ProcessHandle) (code : ℤ) where
  after_round :
      (rounds deadline : ℕ) (h : History)
      → deadline ≤ host.clock h + suc rounds * status_interval
      → deadline
        ≤ host.clock (Step.sleep status_interval ∷ polled handle h) + rounds * status_interval
  after_round rounds deadline h near =
      let read = timed.advances Step.monotonic h in
      let answered = timed.advances (Step.exec (wait_command handle)) (Step.monotonic ∷ h) in
      let slept = timed.sleeps status_interval (polled handle h) in omega arith

  poll_status-code :
      (rounds deadline : ℕ) (h : History)
      → deadline ≤ host.clock h + rounds * status_interval
      → Settles host handle deadline code h
      → (poll_status host rounds handle deadline h).0 ≡ ok code
  unfolding poll_status ◌>>=◌ read_clock exec_over_ssh settle sleep_for lift
  poll_status-code zero deadline h near (at_once output early e running exited read) =
      let advanced = timed.advances Step.monotonic h in ground arith
  poll_status-code zero deadline h near (later early e next) =
      let advanced = timed.advances Step.monotonic h in ground arith
  poll_status-code (suc rounds) deadline h near (at_once output early e running exited read) =
      let in_time : ltb (host.clock (Step.monotonic ∷ h)) deadline ≡ true = ground arith in
      rw in_time (rw e (rw running (rw exited read)))
  poll_status-code (suc rounds) deadline h near (later early e next) =
      let in_time : ltb (host.clock (Step.monotonic ∷ h)) deadline ≡ true = ground arith in
      rw in_time
        (rw e (poll_status-code rounds deadline _ (after_round rounds deadline h near) next))

  -- On a host whose clock never runs back and whose sleeps last for the time that was asked, `wait_process`
  -- returns the status of the process: if polls that are answered before the deadline say that it is running, until
  -- one gives a status, the call returns that status, however many polls it takes.
  pub wait_process-code :
      (timeout : ℕ) (h : History)
      → Settles host handle (host.clock (Step.monotonic ∷ h) + timeout) code (Step.monotonic ∷ h)
      → (wait_process host handle timeout h).0 ≡ ok code
  unfolding wait_process ◌>>=◌ read_clock
  wait_process-code timeout h settles =
      let start = host.clock (Step.monotonic ∷ h) in
      let near : start + timeout ≤ start + (timeout / status_interval + 1) * status_interval =
        omega arith in
      poll_status-code (timeout / status_interval + 1) (start + timeout) (Step.monotonic ∷ h) near
        settles
