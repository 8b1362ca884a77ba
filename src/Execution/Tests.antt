-- ===== src/Execution/Tests.antt =====
-- One run on nodes that answer every request, and the properties of `execute_run` on it.
use net_latency_lab.Base.{ℕ, String, true, false, some, List, [], ◌∷◌, ◌++◌, ◌≡◌, refl}
use net_latency_lab.Python.Error.{Result, ok}
use net_latency_lab.Python.Stateful.{◌>>=◌, lift, give, try_finally, swallow}
use net_latency_lab.Campaign.Run.{run_campaign}
use net_latency_lab.Campaign.Nodes.{build_nodes, environment_of}
use net_latency_lab.Campaign.Nodes.Idle.{IsIdle, run_campaign-IsIdle}
use net_latency_lab.Verdict.Stats.{totals_of}
use net_latency_lab.Verdict.Validity.{validity_reasons}
use net_latency_lab.Execution.Commands.{
  receiver_command, global_prefix, sender_command, node_runtime, management_host, node_project_root,
  binary_dir,
}
use net_latency_lab.Python.Paths.{str_path, child}
use net_latency_lab.Execution.Lab.{
  receiver, sender, Request, no_locals, History, ask, ask_then, pause,
}
use net_latency_lab.Execution.Plan.{Plan, make_plan, workload_index_of, profiled_command}
use net_latency_lab.Execution.Plan.Tracked.{IsTracked, receiver_command-IsTracked}
use net_latency_lab.Execution.Measure.{
  Snapshot, Measured, measure, start_receiver, snapshot_before, snapshot_after, run_sender,
  stop_receiver, check_workload,
}
use net_latency_lab.Execution.Metadata.{Metadata, metadata_of}
use net_latency_lab.Execution.Metadata.Accounted.{IsAccounted, metadata_of-IsAccounted}
use net_latency_lab.Execution.Collect.{
  conclude, fetch_stats, fetch_pacing, add_pacing, qualified, add_profile,
}
use net_latency_lab.Execution.Run.{
  RunResult, execute_run, cleanup, run_body, stop_if_active, remove_if,
}
use net_latency_lab.Execution.Run.Reaped.{unreaped}
use net_latency_lab.Execution.Run.Reaped.Ended.{execute_run-Idle}
use net_latency_lab.Execution.Run.Silent.{is_ok, launched, IsSilent}
use net_latency_lab.Execution.Run.Silent.Ended.{execute_run-IsSilent}
use net_latency_lab.Execution.Run.Removal.{IsSafe}
use net_latency_lab.Execution.Run.Removal.Kept.{execute_run-IsSafe}
use net_latency_lab.Execution.Fixtures.{
  numbers, floats, percentiles, runtime, batched, benchmark, config, item, handle, sender_stats,
  receiver_stats, lab,
}

abbrev finished : Result (RunResult ℕ) × History ℕ
finished = execute_run numbers floats percentiles lab config "s1" item []

run_completes : is_ok finished.0 ≡ true
unfolding execute_run ◌>>=◌ make_plan lift ask receiver_command global_prefix sender_command
    node_runtime give try_finally cleanup run_body measure start_receiver workload_index_of
    profiled_command ask_then pause snapshot_before snapshot_after run_sender stop_receiver
    check_workload conclude fetch_stats fetch_pacing metadata_of validity_reasons totals_of
    add_pacing qualified add_profile stop_if_active remove_if swallow
run_completes = refl

execute_run-Idle_example :
    (unreaped lab receiver finished.1 ≡ []) × (unreaped lab sender finished.1 ≡ [])
unfolding unreaped
execute_run-Idle_example =
    execute_run-Idle numbers floats percentiles lab config "s1" item [] (refl, refl)

execute_run-IsSilent_example : IsSilent lab 12 finished.1 × (launched lab finished.1 ≡ false)
unfolding IsSilent launched
execute_run-IsSilent_example =
    execute_run-IsSilent numbers floats percentiles lab config item benchmark refl "s1" [] tt refl

execute_run-IsSafe_example : IsSafe lab finished.1
execute_run-IsSafe_example = execute_run-IsSafe numbers floats percentiles lab config "s1" item

receiver_command-IsTracked_example :
    (command : List String) × IsTracked
      (some "record")
      ("perf" ∷ "record" ∷ "--" ∷ [] ++ command)
      ".pid"
unfolding receiver_command global_prefix
receiver_command-IsTracked_example = (
  _,
  receiver_command-IsTracked "/opt/lab" batched runtime "t.bin" "rx.json" 32 _ refl refl
      (some "record") refl ("perf" ∷ "record" ∷ "--" ∷ []) ".pid",
)

abbrev snapshot : Snapshot
snapshot = record {
  receiver_state = [];
  sender_state = [];
  receiver_counters = [];
  sender_counters = [];
}

abbrev measured : Measured
measured = record {
  receiver_handle = handle;
  sender_handle = handle;
  before = snapshot;
  after = snapshot;
}

abbrev plan : Plan ℕ
plan = record {
  session_id = "s1";
  item = item;
  config = config;
  benchmark = benchmark;
  interface = "lo";
  rx_command = [];
  tx_command = [];
  unavailable = [];
}

metadata_of-IsAccounted_example :
    (m : Metadata ℕ) × IsAccounted numbers plan measured sender_stats receiver_stats m
unfolding metadata_of validity_reasons totals_of
metadata_of-IsAccounted_example =
    (_, metadata_of-IsAccounted numbers plan measured sender_stats receiver_stats _ refl)

-- A campaign of that run, with no build skipped
run_campaign-IsIdle_example :
    IsIdle lab
      (run_campaign
        (environment_of numbers floats percentiles lab (λ h. ok tt) config "s1")
        false
        (λ i. false)
        []
        (item ∷ [])
        []).1.nodes
unfolding unreaped
run_campaign-IsIdle_example =
    run_campaign-IsIdle numbers floats percentiles lab (λ h. ok tt) config "s1" false (λ i. false)
      [] (item ∷ []) [] (refl, refl)

-- One node plays both roles, so it is built once.
built_once : build_nodes lab config (no_locals []) ≡ (
  ok tt,
  no_locals (
      Request.run receiver ("cmake" ∷ "--build" ∷ "/opt/lab/build" ∷ "-j2" ∷ []) 900
      ∷ Request.run receiver ("cmake" ∷ "--preset" ∷ "dev" ∷ "-S" ∷ "/opt/lab" ∷ []) 120
      ∷ []),
)
unfolding build_nodes ◌>>=◌ ask give management_host node_project_root node_runtime str_path
    binary_dir child
built_once = refl
