-- ===== src/Execution/Run.antt =====
-- `execute_run` (main.py): the plan, the `try` with its phases, and the `finally` clause.
pub mod Reaped
pub mod Silent
pub mod Removal
use net_latency_lab.Base.{String, Bool, true, false, Option, none, some}
use net_latency_lab.Python.Error.{Result}
use net_latency_lab.Python.Stateful.{give, ◌>>=◌, ◌>>◌, swallow, try_finally}
use net_latency_lab.Process.Node.{ProcessHandle}
use net_latency_lab.Campaign.Schedule.{RunTuple}
use net_latency_lab.Pacing.Report.{Percentiles}
use net_latency_lab.Verdict.Qualification.{Floats}
use net_latency_lab.Execution.Lab.{
  Side, receiver, sender, shutdown_process, remove_files, History, Lab, no_locals, Run, ask,
}
use net_latency_lab.Execution.Plan.{
  Plan, RunConfig, run_id_of, make_plan, receiver_artifacts, sender_artifacts,
}
use net_latency_lab.Execution.Measure.{Numbers, runtime, measure}
use net_latency_lab.Execution.Metadata.{Metadata}
use net_latency_lab.Execution.Collect.{local_path, conclude}

-- The dictionary that is returned.
pub record RunResult (F : Type 0) : Type 0 where
  pub run_id : String
  pub metadata : String
  pub trace : String
  pub metadata_object : Metadata F

module _ {F : Type 0} (lab : Lab F) (plan : Plan F) where
  -- `if active is not None: try: shutdown_process(…) except Exception: progress(…)`
  unfoldable pub stop_if_active : Side → Option ProcessHandle → Run F (Unit {0})
  stop_if_active side none = give tt
  stop_if_active side (some handle) =
      swallow
        (ask (shutdown_process side handle (runtime plan).shutdown_timeout_seconds) lab.status)

  unfoldable pub remove_if : Bool → Run F (Unit {0})
  remove_if false = give tt
  remove_if true = do
    ask (remove_files receiver (receiver_artifacts plan)) lab.done
    ask (remove_files sender (sender_artifacts plan)) lab.done

  -- The `finally` clause. It reads the locals as the body left them.
  unfoldable pub cleanup : Run F (Unit {0})
  unfolding stop_if_active remove_if
  cleanup s =
      (stop_if_active sender s.active_sender
          >> stop_if_active receiver s.active_receiver
          >> remove_if s.cleanup_eligible)
        s

module _ {F : Type 0} (numbers : Numbers F) (floats : Floats F) (percentiles : Percentiles)
    (lab : Lab F) where
  abbrev pub result_of : Plan F → Metadata F → RunResult F
  result_of plan metadata = record {
    run_id = run_id_of plan.item;
    metadata = local_path plan "_meta.json";
    trace = local_path plan ".bin";
    metadata_object = metadata;
  }

  -- The body of the `try`.
  unfoldable pub run_body : Plan F → Run F (RunResult F)
  run_body plan = do
    measured ← measure numbers lab plan
    metadata ← conclude numbers floats percentiles lab plan measured
    give (result_of plan metadata)

  abbrev pub run_plan : Plan F → Run F (RunResult F)
  run_plan plan = try_finally (run_body plan) (cleanup lab plan)

  unfoldable pub execute_run :
      RunConfig F → String → RunTuple → History F → Result (RunResult F) × History F
  execute_run config session_id item history =
      let (outcome, s) =
        (make_plan numbers.str_number lab config session_id item >>= run_plan)
          (no_locals history) in
      (outcome, s.history)
