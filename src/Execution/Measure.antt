-- ===== src/Execution/Measure.antt =====
-- The timed part of `execute_run` (main.py): the receiver is started, the sender is run, and the
-- receiver is stopped, between two snapshots of both nodes.
use net_latency_lab.Base.{ℕ, String, Bool, not, Option, none, some, List, [], ◌∷◌}
use net_latency_lab.Base.Int.{ℤ, pos, eqb_ℤ}
use net_latency_lab.Python.Error.{Error, raise_if}
use net_latency_lab.Python.Stateful.{lift, give, ◌>>=◌, ◌>>◌}
use net_latency_lab.Python.Show.{concat, str_nat, str_int}
use net_latency_lab.Process.Node.{ProcessHandle, shutdown_target_pid}
use net_latency_lab.Counters.Deltas.{Sample}
use net_latency_lab.Verdict.State.{State}
use net_latency_lab.Execution.Commands.{RuntimeConfig, get_or}
use net_latency_lab.Execution.Lab.{
  receiver, sender, start_process, process_exists, run_state, snapshot_counters, wait_process,
  shutdown_process, Lab, Locals, Run, ask, ask_then, pause,
}
use net_latency_lab.Execution.Plan.{Plan, receiver_log, sender_log, workload_index_of}

-- What the source does with floating-point numbers, on a type of them.
pub record Numbers (F : Type 0) : Type 0 where
  pub str_number : F → String
  pub zero : F
  pub one : F
  pub add : F → F → F
  pub is_positive : F → Bool
  -- `packets / seconds` and `100.0 * packets / total`
  pub per : ℤ → F → F
  pub percent : ℤ → ℤ → F

-- One of the two snapshots.
pub record Snapshot : Type 0 where
  pub receiver_state : State
  pub sender_state : State
  pub receiver_counters : List (String × Sample)
  pub sender_counters : List (String × Sample)

-- The two handles and the two snapshots.
pub record Measured : Type 0 where
  pub receiver_handle : ProcessHandle
  pub sender_handle : ProcessHandle
  pub before : Snapshot
  pub after : Snapshot

module _ {F : Type 0} where
  abbrev pub set_receiver : ProcessHandle → Locals F → Locals F
  set_receiver handle s = record s { active_receiver = some handle }

  abbrev pub set_sender : ProcessHandle → Locals F → Locals F
  set_sender handle s = record s { active_sender = some handle }

  abbrev pub clear_receiver : ℤ → Locals F → Locals F
  clear_receiver status s = record s { active_receiver = none }

  abbrev pub clear_sender : ℤ → Locals F → Locals F
  clear_sender status s = record s { active_sender = none }

-- `f"{text}: PID {pid}"`
abbrev pub with_pid : String → ℕ → Error
with_pid text pid = Error.runtime_error (concat (text ∷ ": PID " ∷ str_nat pid ∷ []))

abbrev pub failed_with : String → ℤ → String
failed_with name status = concat (name ∷ " failed with status " ∷ str_int status ∷ [])

abbrev pub is_failure : ℤ → Bool
is_failure status = not (eqb_ℤ status (pos 0))

-- The PID of the wrapper, if the workload is another process.
abbrev pub profile_wrapper_pid : ProcessHandle → Option ℕ
profile_wrapper_pid handle = elim handle.workload_pid [ none ↦ none | some pid ↦ some handle.pid ]

abbrev pub receiver_failure : ProcessHandle → ℤ → Error
receiver_failure handle status = Error.runtime_error (
    concat (
      failed_with "Receiver" status
      ∷ ": PID "
      ∷ str_nat (shutdown_target_pid handle)
      ∷ elim (profile_wrapper_pid handle) [
        | none ↦ []
        | some pid ↦ " (profile wrapper PID " ∷ str_nat pid ∷ ")" ∷ []
      ]))

module _ {F : Type 0} (plan : Plan F) where
  abbrev pub runtime : RuntimeConfig F
  runtime = plan.config.runtime

  abbrev pub sender_interface : String
  sender_interface = get_or plan.config.sender_node.interface plan.interface

abbrev pub silence_seconds : {F : Type 0} → Numbers F → Plan F → F
silence_seconds numbers plan =
    numbers.add plan.benchmark.sender_config.duration_seconds
      (get_or plan.config.runtime.post_sender_drain_seconds numbers.one)

module _ {F : Type 0} (lab : Lab F) (plan : Plan F) where
  unfoldable pub start_receiver : Run F ProcessHandle
  start_receiver = do
    index ← lift (workload_index_of plan.benchmark.profile plan.rx_command)
    handle ←
        ask_then (start_process receiver plan.rx_command (receiver_log plan) index) lab.started
          set_receiver
    pause (runtime plan).receiver_startup_seconds
    exists ← ask (process_exists receiver (shutdown_target_pid handle)) lab.exists
    lift (
        raise_if (not exists)
          (with_pid "Receiver exited during startup" (shutdown_target_pid handle)))
    give handle

  -- The slow probes of the state come before the counters, so that these are read close to the
  -- timed interval.
  unfoldable pub snapshot_before : Run F Snapshot
  snapshot_before = do
    receiver_state ← ask (run_state receiver plan.interface) lab.state
    sender_state ← ask (run_state sender (sender_interface plan)) lab.state
    receiver_counters ← ask (snapshot_counters receiver plan.interface) lab.counters
    sender_counters ← ask (snapshot_counters sender (sender_interface plan)) lab.counters
    give (record {
      receiver_state = receiver_state;
      sender_state = sender_state;
      receiver_counters = receiver_counters;
      sender_counters = sender_counters;
    })

  unfoldable pub snapshot_after : Run F Snapshot
  snapshot_after = do
    receiver_counters ← ask (snapshot_counters receiver plan.interface) lab.counters
    sender_counters ← ask (snapshot_counters sender (sender_interface plan)) lab.counters
    receiver_state ← ask (run_state receiver plan.interface) lab.state
    sender_state ← ask (run_state sender (sender_interface plan)) lab.state
    give (record {
      receiver_state = receiver_state;
      sender_state = sender_state;
      receiver_counters = receiver_counters;
      sender_counters = sender_counters;
    })

  -- `if handle.workload_pid is not None and receiver_node.process_exists(handle.workload_pid): …`
  unfoldable pub check_workload : Option ℕ → Run F (Unit {0})
  check_workload none = give tt
  check_workload (some pid) = do
    exists ← ask (process_exists receiver pid) lab.exists
    lift (
        raise_if exists (
          Error.runtime_error
            (concat ("Profiled receiver PID " ∷ str_nat pid ∷ " survived wrapper exit" ∷ []))))

  unfoldable pub stop_receiver : ProcessHandle → Run F (Unit {0})
  stop_receiver handle = do
    status ←
        ask_then (shutdown_process receiver handle (runtime plan).shutdown_timeout_seconds)
          lab.status clear_receiver
    lift (raise_if (is_failure status) (receiver_failure handle status))
    check_workload handle.workload_pid

module _ {F : Type 0} (numbers : Numbers F) (lab : Lab F) (plan : Plan F) where
  -- The sender is started, nothing is asked while it sends, and it is waited for.
  unfoldable pub run_sender : Run F ProcessHandle
  run_sender = do
    handle ←
        ask_then (start_process sender plan.tx_command (sender_log plan) none) lab.started
          set_sender
    pause (silence_seconds numbers plan)
    status ←
        ask_then (wait_process sender handle (runtime plan).shutdown_timeout_seconds) lab.status
          clear_sender
    lift (raise_if (is_failure status) (with_pid (failed_with "Sender" status) handle.pid))
    give handle

  unfoldable pub measure : Run F Measured
  measure = do
    receiver_handle ← start_receiver lab plan
    before ← snapshot_before lab plan
    sender_handle ← run_sender
    after ← snapshot_after lab plan
    stop_receiver lab plan receiver_handle
    give (record {
      receiver_handle = receiver_handle;
      sender_handle = sender_handle;
      before = before;
      after = after;
    })
