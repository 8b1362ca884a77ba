-- ===== src/Execution/Plan.antt =====
-- What `execute_run` (main.py) settles before its `try`: names, artifacts and commands.
pub mod Tracked
use net_latency_lab.Base.{
  ℕ, suc, String, Bool, true, false, not, ◌&&◌, ◌||◌, Option, none, some, List, [], ◌∷◌, filter,
  get_elem?, if◌then◌else◌,
}
use net_latency_lab.Base.Int.{ℤ, pos}
use net_latency_lab.Python.Error.{Error, Result, ok, err}
use net_latency_lab.Python.Stateful.{lift, give, ◌>>=◌, ◌>>◌}
use net_latency_lab.Python.Show.{concat, join, str_nat, two_digits}
use net_latency_lab.Python.Paths.{name_of}
use net_latency_lab.Campaign.Schedule.{RunTuple}
use net_latency_lab.Execution.Commands.{
  NodeConfig, RuntimeConfig, ReceiverConfig, SenderConfig, get_or, benchmark_ip, node_project_root,
  node_runtime, receiver_command, sender_command,
}
use net_latency_lab.Execution.Lab.{receiver, run, make_run_dir, Lab, Run, ask}
use Prim.Native.String.{◌++◌ as str_append, slice, len}
use text.Mathlib.Text.{◌==◌, starts_with, find?}

pub record BenchmarkConfig (F : Type 0) : Type 0 where
  pub receiver_config : ReceiverConfig
  pub sender_config : SenderConfig F
  pub profile : Option String
  pub perf_events : Option (List String)
  pub contributes_to_claim_measurements : Option Bool

pub record RunConfig (F : Type 0) : Type 0 where
  pub topology : String
  pub remote_project_root : String
  pub receiver_node : NodeConfig
  pub sender_node : NodeConfig
  pub runtime : RuntimeConfig F
  pub benchmarks : List (BenchmarkConfig F)

unfoldable pub run_id_of : RunTuple → String
run_id_of item = concat (
    item.benchmark_name
    ∷ "_r"
    ∷ two_digits item.repetition
    ∷ "_"
    ∷ str_nat item.rate
    ∷ "pps_burst"
    ∷ str_nat item.burst
    ∷ "_batch"
    ∷ str_nat item.batch
    ∷ [])

unfoldable pub remote_base_of : String → RunTuple → String
unfolding run_id_of
remote_base_of session_id item = concat ("/tmp/nll_" ∷ session_id ∷ "_" ∷ run_id_of item ∷ [])

-- `profile == mode`
abbrev pub is_profile : String → Option String → Bool
is_profile mode none = false
is_profile mode (some profile) = profile == mode

-- `profile in {"stat", "record"}`
abbrev pub is_profiled : Option String → Bool
is_profiled profile = is_profile "stat" profile || is_profile "record" profile

abbrev pub remote_profile_of : String → Option String → String
remote_profile_of base profile =
    str_append base (if is_profile "stat" profile then "_perf_stat.csv" else "_perf.data")

abbrev pub default_events : List String
default_events =
    "task-clock" ∷ "cycles" ∷ "instructions" ∷ "branches" ∷ "branch-misses" ∷ "cache-references"
    ∷ "cache-misses" ∷ "context-switches" ∷ "cpu-migrations" ∷ "page-faults"
    ∷ "syscalls:sys_enter_recvfrom" ∷ "syscalls:sys_enter_recvmmsg" ∷ []

-- `text in perf_list`
abbrev pub occurs : Option ℕ → Bool
occurs none = false
occurs (some position) = true

-- A system call's event that `perf list` does not show.
unfoldable pub is_unavailable : String → String → Bool
is_unavailable perf_list event =
    starts_with event "syscalls:"
    && not (occurs (find? perf_list (slice event (len "syscalls:") (len event))))

abbrev pub available_events : String → List String → List String
available_events perf_list events =
    filter (λ (event : String). not (is_unavailable perf_list event)) events

abbrev pub unavailable_events : String → List String → List String
unavailable_events perf_list events = filter (is_unavailable perf_list) events

abbrev pub perf_stat : String → List String → List String → List String
perf_stat remote_profile events command =
    "perf" ∷ "stat" ∷ "-x," ∷ "-o" ∷ remote_profile ∷ "-e" ∷ join "," events ∷ "--" ∷ command

abbrev pub perf_record : String → List String → List String
perf_record remote_profile command =
    "perf" ∷ "record" ∷ "-o" ∷ remote_profile ∷ "-F" ∷ "99" ∷ "-g" ∷ "--call-graph" ∷ "fp" ∷ "--"
    ∷ command

abbrev pub is_receiver_binary : String → Bool
is_receiver_binary name =
    name == "receiver_baseline" || name == "receiver_batched" || name == "receiver_threaded"

-- `next(index for index, part in enumerate(command) if Path(part).name in RECEIVER_BINARIES)`
unfoldable pub first_receiver : ℕ → List String → Result ℤ
first_receiver index [] = err Error.stop_iteration
first_receiver index (part ∷ parts) =
    let rest = first_receiver (suc index) parts in
    if is_receiver_binary (name_of part) then ok (pos index) else rest

-- The last line of the `if profile in {"stat", "record"}` of the `try`: None without a profile.
unfoldable pub workload_index_of : Option String → List String → Result (Option ℤ)
workload_index_of profile command =
    if is_profiled profile
    then elim (first_receiver 0 command) [ err e ↦ err e | ok index ↦ ok (some index) ]
    else ok none

pub record Plan (F : Type 0) : Type 0 where
  pub session_id : String
  pub item : RunTuple
  pub config : RunConfig F
  pub benchmark : BenchmarkConfig F
  pub interface : String
  pub rx_command : List String
  pub tx_command : List String
  pub unavailable : List String

abbrev pub listed : Option String → List String
listed none = []
listed (some path) = path ∷ []

-- `node["interface"]`
abbrev pub interface_of : NodeConfig → Result String
interface_of node = elim node.interface [ none ↦ err (Error.key_error "interface") | some i ↦ ok i ]

module _ {F : Type 0} where
  -- `benchmarks[index]`
  abbrev pub element : Option (BenchmarkConfig F) → Result (BenchmarkConfig F)
  element none = err Error.index_error
  element (some benchmark) = ok benchmark

  abbrev pub has_pacing : BenchmarkConfig F → Bool
  has_pacing benchmark = get_or benchmark.sender_config.pacing_trace false

  abbrev pub remote_pacing_trace : String → BenchmarkConfig F → Option String
  remote_pacing_trace base benchmark =
      if has_pacing benchmark then some (str_append base "_pacing.csv") else none

  abbrev pub base_of : Plan F → String
  base_of plan = remote_base_of plan.session_id plan.item

  abbrev pub receiver_log : Plan F → String
  receiver_log plan = str_append (base_of plan) "_receiver.log"

  abbrev pub sender_log : Plan F → String
  sender_log plan = str_append (base_of plan) "_sender.log"

  unfoldable pub receiver_artifacts : Plan F → List String
  unfolding remote_base_of
  receiver_artifacts plan =
      let base = base_of plan in
      str_append base ".bin"
      ∷ str_append base "_rx.json"
      ∷ receiver_log plan
      ∷ str_append (receiver_log plan) ".status"
      ∷ str_append (receiver_log plan) ".pid"
      ∷ (if is_profiled plan.benchmark.profile
          then remote_profile_of base plan.benchmark.profile
            ∷ str_append (receiver_log plan) ".workload.pid"
            ∷ []
          else [])

  unfoldable pub sender_artifacts : Plan F → List String
  unfolding remote_base_of
  sender_artifacts plan =
      let base = base_of plan in
      str_append base "_tx.json"
      ∷ sender_log plan
      ∷ str_append (sender_log plan) ".status"
      ∷ str_append (sender_log plan) ".pid"
      ∷ listed (remote_pacing_trace base plan.benchmark)

module _ {F : Type 0} (lab : Lab F) where
  -- The `perf stat` command and the events that are unavailable, after `perf list`.
  abbrev pub counted_command :
      BenchmarkConfig F → String → List String → String → List String × List String
  counted_command benchmark remote_profile command perf_list =
      let events = get_or benchmark.perf_events default_events in
      (
        perf_stat remote_profile (available_events perf_list events) command,
        unavailable_events perf_list events,
      )

  -- The receiver's command under its profiler, with the events that are unavailable.
  unfoldable pub profiled_command :
      BenchmarkConfig F → String → List String → Run F (List String × List String)
  profiled_command benchmark remote_profile command =
      if is_profile "stat" benchmark.profile
      then (do
        perf_list ← ask (run receiver ("perf" ∷ "list" ∷ []) 60) lab.output
        give (counted_command benchmark remote_profile command perf_list))
      else if is_profile "record" benchmark.profile
      then give (perf_record remote_profile command, [])
      else give (command, [])

module _ {F : Type 0} (str_number : F → String) (lab : Lab F) where
  unfoldable pub make_plan : RunConfig F → String → RunTuple → Run F (Plan F)
  unfolding profiled_command
  make_plan config session_id item = do
    benchmark ← lift (element (get_elem? config.benchmarks item.benchmark_index))
    ask (make_run_dir item.benchmark_name) lab.done
    let base = remote_base_of session_id item
    rx ← lift (
        receiver_command (node_project_root config.remote_project_root config.receiver_node)
          benchmark.receiver_config config.runtime (str_append base ".bin")
          (str_append base "_rx.json") item.batch)
    tx ← lift (
        sender_command str_number (node_project_root config.remote_project_root config.sender_node)
          (benchmark_ip config.receiver_node) benchmark.receiver_config benchmark.sender_config
          (node_runtime config.runtime config.sender_node) (str_append base "_tx.json") item.rate
          item.burst (remote_pacing_trace base benchmark))
    interface ← lift (interface_of config.receiver_node)
    profiled ← profiled_command lab benchmark (remote_profile_of base benchmark.profile) rx
    give (record {
      session_id = session_id;
      item = item;
      config = config;
      benchmark = benchmark;
      interface = interface;
      rx_command = profiled.0;
      tx_command = tx;
      unavailable = profiled.1;
    })
