-- ===== src/Execution/Fixtures.antt =====
-- A concrete configuration, one item of it, and nodes that answer every request.
use net_latency_lab.Base.{ℕ, ◌+◌, true, false, none, some, [], ◌∷◌, ltb}
use net_latency_lab.Base.Int.{pos}
use net_latency_lab.Python.Error.{ok}
use net_latency_lab.Python.Show.{str_nat}
use net_latency_lab.Process.Node.{ProcessHandle}
use net_latency_lab.Campaign.Schedule.{RunTuple}
use net_latency_lab.Pacing.Report.{Percentiles}
use net_latency_lab.Verdict.Qualification.{Floats}
use net_latency_lab.Execution.Commands.{NodeConfig, RuntimeConfig, ReceiverConfig, SenderConfig}
use net_latency_lab.Execution.Report.{SenderReport, ReceiverReport}
use net_latency_lab.Execution.Lab.{Lab}
use net_latency_lab.Execution.Plan.{BenchmarkConfig, RunConfig}
use net_latency_lab.Execution.Measure.{Numbers}

abbrev pub numbers : Numbers ℕ
numbers = record {
  str_number = str_nat;
  zero = 0;
  one = 1;
  add = λ a b. a + b;
  is_positive = λ n. ltb 0 n;
  per = λ packets seconds. 0;
  percent = λ part whole. 0;
}

abbrev pub floats : Floats ℕ
floats = record { is_in_band = λ rate achieved. true; is_frequent = λ reordered packets. false }

abbrev pub percentiles : Percentiles
percentiles = record {
  rank_p1 = λ n. 0;
  rank_p99 = λ n. 0;
  is_outside_band = λ rate low high. false;
}

abbrev pub node : NodeConfig
node = record {
  management_host = some "127.0.0.1";
  host = none;
  benchmark_ip = some "127.0.0.1";
  interface = some "lo";
  project_root = none;
  build_preset = none;
  build_subdir = none;
}

abbrev pub runtime : RuntimeConfig ℕ
runtime = record {
  port = pos 9000;
  scheduler = "other";
  priority = pos 0;
  receive_buffer_bytes = none;
  send_buffer_bytes = none;
  receiver_cpu = some (pos 2);
  worker_cpu = none;
  sender_cpu = none;
  build_preset = none;
  build_subdir = none;
  privilege_prefix = none;
  receiver_startup_seconds = 1;
  shutdown_timeout_seconds = 5;
  post_sender_drain_seconds = some 2;
}

abbrev pub batched : ReceiverConfig
batched = record { binary = "receiver_batched"; work_ns = none; sample_every = none }

abbrev pub steady : SenderConfig ℕ
steady = record {
  mode = "steady";
  duration_seconds = 10;
  payload_size = pos 64;
  send_batch_max = none;
  batch_window_us = none;
  threads = none;
  cpus = none;
  pacing_trace = none;
}

abbrev pub benchmark : BenchmarkConfig ℕ
benchmark = record {
  receiver_config = batched;
  sender_config = steady;
  profile = none;
  perf_events = none;
  contributes_to_claim_measurements = none;
}

abbrev pub config : RunConfig ℕ
config = record {
  topology = "local_loopback";
  remote_project_root = "/opt/lab";
  receiver_node = node;
  sender_node = node;
  runtime = runtime;
  benchmarks = benchmark ∷ [];
}

abbrev pub item : RunTuple
item = record {
  benchmark_index = 0;
  benchmark_name = "smoke";
  campaign = "comparison";
  repetition = 1;
  rate = 1000;
  burst = 1;
  batch = 32;
}

abbrev pub handle : ProcessHandle
handle = record { pid = 40; command = []; log_path = ""; monitor_pid = none; workload_pid = none }

abbrev pub sender_stats : SenderReport ℕ
sender_stats = record {
  stats = record {
    successful_sends = some (pos 10);
    cpu_affinity = some (record { success = some true });
    requested_socket_buffer_bytes = none;
    observed_socket_buffer_bytes = none;
  };
  failed_sends = some (pos 0);
  attempted_sends = some (pos 10);
  elapsed_seconds = some 10;
  achieved_successful_send_pps = some 1000;
  start_mono_ns = none;
  scheduled_end_mono_ns = none;
  thread_outcomes = [];
  fields = [];
}

abbrev pub receiver_stats : ReceiverReport
receiver_stats = record {
  stats = record {
    unique_valid_packets = some (pos 9);
    unique_processed_packets = some (pos 9);
    processed_packets = some (pos 9);
    spsc_overflow = some (pos 0);
    valid_packets = some (pos 9);
    receiver_affinity = none;
    receiver_scheduler = none;
    worker_affinity = none;
    worker_scheduler = none;
    requested_socket_buffer_bytes = none;
    observed_socket_buffer_bytes = none;
    first_receive_mono_ns = some (pos 1);
    last_receive_mono_ns = some (pos 2);
    first_processing_mono_ns = some (pos 1);
    last_processing_mono_ns = some (pos 2);
    queue_depth_at_shutdown = none;
    socket_pending_bytes_at_shutdown = none;
  };
  variant = some "batched";
  fields = [];
}

abbrev pub lab : Lab ℕ
lab = record {
  done = λ h. ok tt;
  output = λ h. ok "report";
  started = λ h. ok handle;
  exists = λ h. ok true;
  status = λ h. ok (pos 0);
  state = λ h. ok [];
  counters = λ h. ok [];
  sender_stats = λ h. ok sender_stats;
  receiver_stats = λ h. ok receiver_stats;
  rows = λ h. ok (true, []);
}
