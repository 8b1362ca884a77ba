-- ===== src/Campaign/Nodes.antt =====
-- `run_campaign` (main.py) on the two nodes: `build_node`, and `execute_run` as the execution of a run. A
-- reconnection makes new controllers, and asks nothing of a node's processes.
pub mod Idle
use net_latency_lab.Base.{
  ℕ, String, Bool, true, false, not, ◌&&◌, ◌||◌, Option, none, some, List, [], ◌∷◌, if◌then◌else◌,
}
use net_latency_lab.Python.Error.{Error, Result, ok, err}
use net_latency_lab.Python.Paths.{str_path}
use net_latency_lab.Python.Stateful.{give, ◌>>=◌, ◌>>◌}
use net_latency_lab.Campaign.Schedule.{RunTuple}
use net_latency_lab.Campaign.Eligibility.{RunMetadata}
use net_latency_lab.Campaign.Run.{Environment}
use net_latency_lab.Pacing.Report.{Percentiles}
use net_latency_lab.Verdict.Qualification.{Floats}
use net_latency_lab.Execution.Commands.{
  RuntimeConfig, get_or, management_host, node_project_root, node_runtime, binary_dir,
}
use net_latency_lab.Execution.Lab.{
  Side, receiver, sender, Request, History, Lab, no_locals, Run, ask,
}
use net_latency_lab.Execution.Plan.{RunConfig}
use net_latency_lab.Execution.Measure.{Numbers}
use net_latency_lab.Execution.Metadata.{Metadata, Qualification}
use net_latency_lab.Execution.Run.{RunResult, execute_run}
use text.Mathlib.Text.{◌==◌ as same}

abbrev pub same_option : Option String → Option String → Bool
same_option none none = true
same_option none (some b) = false
same_option (some a) none = false
same_option (some a) (some b) = same a b

abbrev pub passed_if : Option Qualification → Option Bool
passed_if none = none
passed_if (some qualification) = some qualification.passed

module _ {F : Type 0} where
  -- What the selection of rates reads of a run's result
  abbrev pub run_metadata : RunResult F → RunMetadata
  run_metadata result = record {
    campaign = result.metadata_object.run.campaign;
    requested_rate_pps = result.metadata_object.run.requested_rate_pps;
    passed = passed_if result.metadata_object.qualification;
  }

  -- Two copies of one runtime that may differ in the fields of the node
  abbrev pub same_runtime : RuntimeConfig F → RuntimeConfig F → Bool
  same_runtime a b =
      same_option a.build_preset b.build_preset && same_option a.build_subdir b.build_subdir

module _ {F : Type 0} (lab : Lab F) where
  unfoldable pub build_node : Side → String → RuntimeConfig F → Run F (Unit {0})
  build_node side project_root runtime =
      ask
        (Request.run side
          ("cmake" ∷ "--preset" ∷ get_or runtime.build_preset "dev" ∷ "-S" ∷ project_root ∷ []) 120)
        lab.output
      >> (ask
            (Request.run side
              ("cmake" ∷ "--build" ∷ str_path (binary_dir project_root runtime) ∷ "-j2" ∷ []) 900)
            lab.output
          >> give tt)

  abbrev pub build_other : Bool → String → RuntimeConfig F → Run F (Unit {0})
  build_other true project_root runtime = build_node sender project_root runtime
  build_other false project_root runtime = give tt

  -- The builds of `run_campaign`: one node may play both roles.
  unfoldable pub build_nodes : RunConfig F → Run F (Unit {0})
  unfolding build_node
  build_nodes config =
      let receiver_root = node_project_root config.remote_project_root config.receiver_node in
      let sender_root = node_project_root config.remote_project_root config.sender_node in
      let receiver_runtime = node_runtime config.runtime config.receiver_node in
      let sender_runtime = node_runtime config.runtime config.sender_node in
      build_node receiver receiver_root receiver_runtime
      >> build_other
          (not (same (management_host config.sender_node) (management_host config.receiver_node))
            || not (same sender_root receiver_root)
            || not (same_runtime sender_runtime receiver_runtime))
          sender_root sender_runtime

module _ {F : Type 0} (numbers : Numbers F) (floats : Floats F) (percentiles : Percentiles)
    (lab : Lab F) (reconnected : History F → Result (Unit {0})) where
  -- What `run_campaign` calls, with the requests to the nodes so far as their state
  unfoldable pub environment_of : RunConfig F → String → Environment (History F) (RunResult F)
  environment_of config session_id = record {
    build = λ history.
        let (outcome, s) = build_nodes lab config (no_locals history) in (outcome, s.history);
    execute_run =
        λ item history. execute_run numbers floats percentiles lab config session_id item history;
    reconnect_nodes = λ history. (reconnected history, history);
    close = λ history. history;
    metadata_object = run_metadata;
  }
