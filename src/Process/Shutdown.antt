-- ===== src/Process/Shutdown.antt =====
-- `NodeController.wait_pid_exit` and `shutdown_process` (main.py): a process is stopped by SIGINT,
-- SIGTERM and SIGKILL in turn; the wrapper of a tracked workload is only signalled after that.
pub mod Polling
pub mod Escalation
pub mod Termination
pub mod Outcome
pub mod Failure
mod Tests
use net_latency_lab.Base.{
  ℕ, zero, suc, ◌+◌, ◌/◌, min, max, Bool, true, false, not, Option, none, some, List, [], ◌∷◌, ltb,
  if◌then◌else◌,
}
use net_latency_lab.Base.Int.{ℤ}
use net_latency_lab.Python.Error.{Error, Result, ok, err}
use net_latency_lab.Process.Node.{
  ProcessHandle, Signal, sigint, sigterm, sigkill, Call, Node, Action, pure, raise, perform, ◌>>=◌,
  ◌>>◌, on_timeout,
}

-- `time.sleep(0.05)`
abbrev pub poll_interval : ℕ
poll_interval = 50_000_000

module _ (node : Node) where
  pub signal_process : ProcessHandle → Signal → Action (Unit {0})
  signal_process handle signum = perform (Call.signal_process handle signum) node.signalled

  pub signal_wrapper : ProcessHandle → Signal → Action (Unit {0})
  signal_wrapper handle signum = perform (Call.signal_wrapper handle signum) node.signalled

  pub wait_process : ProcessHandle → ℕ → Action ℤ
  wait_process handle timeout = perform (Call.wait_process handle timeout) node.waited

  pub process_exists : ℕ → Action Bool
  process_exists pid = perform (Call.process_exists pid) node.exists

  pub sleep : ℕ → Action (Unit {0})
  sleep t = perform (Call.sleep t) (λ _. ok tt)

  pub monotonic : Action ℕ
  monotonic = perform Call.monotonic (λ h. ok (node.clock h))

  -- The loop of `wait_pid_exit`, over at most `rounds` polls.
  pub poll_exit : ℕ → ℕ → ℕ → Action Bool
  unfolding process_exists sleep monotonic
  poll_exit zero pid deadline = do alive ← process_exists pid; pure (not alive)
  poll_exit (suc rounds) pid deadline = do
    now ← monotonic
    if ltb now deadline
        then (do
          alive ← process_exists pid
          if alive then (do sleep poll_interval; poll_exit rounds pid deadline) else pure true)
        else do alive ← process_exists pid; pure (not alive)

  pub wait_pid_exit : ℕ → ℕ → Action Bool
  unfolding poll_exit monotonic
  wait_pid_exit pid timeout = do
    start ← monotonic
    poll_exit (timeout / poll_interval + 2) pid (start + timeout)

-- `max(0.1, min(timeout, 2.0))`
pub escalation_timeout : ℕ → ℕ
escalation_timeout timeout = max 100_000_000 (min timeout 2_000_000_000)

-- How one round of the `for` loop ends: by `return status`, or by going on with `last_timeout`.
pub data Progress : Type 0 where
  returned : ℤ → Progress
  exhausted : Option Error → Progress

-- The rest of a round, after the wait: `status` is none if the wait timed out.
pub conclude : Option ℤ → Bool → Option Error → Progress
conclude (some status) true last_timeout = returned status
conclude none true last_timeout = exhausted last_timeout
conclude status false last_timeout = exhausted (some Error.timeout_expired)

module _ (node : Node) (handle : ProcessHandle) where
  -- `try: status = node.wait_process(…) except TimeoutExpired as exc: last_timeout = exc`: the
  -- status, if the wait did not time out, and `last_timeout`.
  pub try_wait : ℕ → Option Error → Action (Option ℤ × Option Error)
  unfolding wait_process
  try_wait timeout last_timeout =
      on_timeout (wait_process node handle timeout >>= λ status. pure (some status, last_timeout))
        (λ exc. (none, some exc))

  -- One round: send the signal, wait, and look whether a tracked workload is gone.
  pub stage : ℕ → Signal × ℕ → Option Error → Action Progress
  unfolding signal_process try_wait conclude
  stage escalation (signum, wait_timeout) last_timeout = do
    signal_process node handle signum
    waited ← try_wait wait_timeout last_timeout
    elim handle.workload_pid [
      | some pid ↦ do
        workload_exited ← wait_pid_exit node pid escalation
        pure (conclude waited.0 workload_exited waited.1)
      | none ↦ pure (elim waited.0 [ some status ↦ returned status | none ↦ exhausted waited.1 ])
    ]

  pub run_stages : ℕ → List (Signal × ℕ) → Option Error → Action Progress
  run_stages escalation [] last_timeout = pure (exhausted last_timeout)
  run_stages escalation (s ∷ stages) last_timeout = do
    progress ← stage escalation s last_timeout
    elim progress [
      | returned status ↦ pure (returned status)
      | exhausted last' ↦ run_stages escalation stages last'
    ]

  -- `assert last_timeout is not None; raise last_timeout`
  pub raise_last : Option Error → Action ℤ
  raise_last none = raise Error.assertion_error
  raise_last (some exc) = raise exc

  -- The last loop: SIGTERM and SIGKILL to the wrapper.
  pub stop_wrapper : ℕ → List Signal → Option Error → Action ℤ
  unfolding signal_wrapper try_wait raise_last
  stop_wrapper escalation [] last_timeout = raise_last last_timeout
  stop_wrapper escalation (signum ∷ signals) last_timeout = do
    signal_wrapper node handle signum
    waited ← try_wait escalation last_timeout
    elim waited.0 [ some status ↦ pure status | none ↦ stop_wrapper escalation signals waited.1 ]

  -- After SIGKILL: a tracked workload that lives is the end; else its wrapper is stopped.
  pub after_stages : ℕ → Option Error → Action ℤ
  unfolding process_exists raise_last
  after_stages escalation last_timeout = elim handle.workload_pid [
    | some pid ↦ do
      alive ← process_exists node pid
      elim alive [
        | true ↦ raise_last last_timeout
        | false ↦ stop_wrapper escalation (sigterm ∷ sigkill ∷ []) last_timeout
      ]
    | none ↦ raise_last last_timeout
  ]

  abbrev pub escalation_stages : ℕ → List (Signal × ℕ)
  escalation_stages timeout =
      (sigint, timeout)
      ∷ (sigterm, escalation_timeout timeout)
      ∷ (sigkill, escalation_timeout timeout)
      ∷ []

  pub shutdown_process : ℕ → Action ℤ
  shutdown_process timeout = do
    progress ← run_stages (escalation_timeout timeout) (escalation_stages timeout) none
    elim progress [
      | returned status ↦ pure status
      | exhausted last_timeout ↦ after_stages (escalation_timeout timeout) last_timeout
    ]
