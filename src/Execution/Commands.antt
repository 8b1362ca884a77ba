-- ===== src/Execution/Commands.antt =====
-- `receiver_command` and `sender_command` (main.py) with what they use, on a configuration that
-- `validate_config` accepts. `F` is the type of the numbers that may be fractions.
use net_latency_lab.Base.{
  ℕ, String, Bool, ◌||◌, Option, none, some, List, [], ◌∷◌, ◌++◌, map, if◌then◌else◌,
}
use net_latency_lab.Base.Int.{ℤ, pos}
use net_latency_lab.Python.Error.{Error, Result, ok, err, ◌>>=◌}
use net_latency_lab.Python.Show.{join, str_nat, str_int}
use net_latency_lab.Python.Paths.{PurePath, path_of, child, str_path}
use text.Mathlib.Text.{◌==◌}

-- An entry of `global.nodes`. A key that may be missing is an option.
pub record NodeConfig : Type 0 where
  pub management_host : Option String
  pub host : Option String
  pub benchmark_ip : Option String
  pub interface : Option String
  pub project_root : Option String
  pub build_preset : Option String
  pub build_subdir : Option String

-- What `runtime.privilege_prefix` may be: a list, whose parts should be strings, or something else.
pub data Prefix : Type 0 where
  not_a_list : Prefix
  parts : List (Option String) → Prefix

pub record RuntimeConfig (F : Type 0) : Type 0 where
  pub port : ℤ
  pub scheduler : String
  pub priority : ℤ
  pub receive_buffer_bytes : Option ℤ
  pub send_buffer_bytes : Option ℤ
  pub receiver_cpu : Option ℤ
  pub worker_cpu : Option ℤ
  pub sender_cpu : Option ℤ
  pub build_preset : Option String
  pub build_subdir : Option String
  pub privilege_prefix : Option Prefix
  pub receiver_startup_seconds : F
  pub shutdown_timeout_seconds : F
  pub post_sender_drain_seconds : Option F

pub record ReceiverConfig : Type 0 where
  pub binary : String
  pub work_ns : Option ℤ
  pub sample_every : Option ℤ

pub record SenderConfig (F : Type 0) : Type 0 where
  pub mode : String
  pub duration_seconds : F
  pub payload_size : ℤ
  pub send_batch_max : Option ℤ
  pub batch_window_us : Option ℤ
  pub threads : Option ℤ
  pub cpus : Option (List ℤ)
  pub pacing_trace : Option Bool

-- `node.get(key, default)`
abbrev pub get_or {ℓ} : {A : Type ℓ} → Option A → A → A
get_or none default = default
get_or (some value) default = value

abbrev pub is_local : String → Bool
is_local host = host == "127.0.0.1" || host == "localhost" || host == "::1"

unfoldable pub management_host : NodeConfig → String
management_host node = get_or node.management_host (get_or node.host "")

unfoldable pub benchmark_ip : NodeConfig → String
benchmark_ip node = get_or node.benchmark_ip (get_or node.host "")

pub data Controller : Type 0 where
  local_node : Controller
  remote_node : String → String → Controller

abbrev pub get_node : String → String → Controller
get_node host user = if is_local host then local_node else remote_node host user

unfoldable pub node_project_root : String → NodeConfig → String
node_project_root remote_project_root node = get_or node.project_root remote_project_root

-- `resolved[field] = node[field]`, if the node has the field
abbrev pub override : Option String → Option String → Option String
override (some value) resolved = some value
override none resolved = resolved

-- `any(not isinstance(part, str) for part in prefix)`, or else the strings
abbrev pub strings_of : List (Option String) → Option (List String)
strings_of [] = some []
strings_of (none ∷ ps) = none
strings_of (some part ∷ ps) = elim (strings_of ps) [
  | none ↦ none
  | some texts ↦ some (part ∷ texts)
]

abbrev pub prefix_error : Error
prefix_error = Error.value_error "runtime.privilege_prefix must be a string list"

abbrev pub checked_prefix : Option (List String) → Result (List String)
checked_prefix none = err prefix_error
checked_prefix (some texts) = ok texts

-- `["--name", str(value)]`
abbrev pub option : String → String → List String
option name value = name ∷ value ∷ []

abbrev pub takes_batch : String → Bool
takes_batch binary = binary == "receiver_batched" || binary == "receiver_threaded"

-- `["--cpu", str(cpu)]`, if there is one
abbrev pub cpu_option : String → Option ℤ → List String
cpu_option name none = []
cpu_option name (some cpu) = option name (str_int cpu)

-- `--cpus` of the sender's own list, or else `--cpu` of the runtime
abbrev pub sender_cpus : Option (List ℤ) → Option ℤ → List String
sender_cpus (some cpus) sender_cpu = option "--cpus" (join "," (map str_int cpus))
sender_cpus none sender_cpu = cpu_option "--cpu" sender_cpu

abbrev pub trace_option : Option String → List String
trace_option none = []
trace_option (some path) = option "--pacing-trace" path

module _ {F : Type 0} where
  unfoldable pub node_runtime : RuntimeConfig F → NodeConfig → RuntimeConfig F
  node_runtime runtime node = record runtime {
    build_preset = override node.build_preset runtime.build_preset;
    build_subdir = override node.build_subdir runtime.build_subdir;
  }

  unfoldable pub binary_dir : String → RuntimeConfig F → PurePath
  binary_dir project_root runtime =
      child (child (path_of project_root) "build") (get_or runtime.build_subdir "")

  unfoldable pub global_prefix : RuntimeConfig F → Result (List String)
  global_prefix runtime = elim (get_or runtime.privilege_prefix (Prefix.parts [])) [
    | Prefix.not_a_list ↦ err prefix_error
    | Prefix.parts ps ↦ checked_prefix (strings_of ps)
  ]

  unfoldable pub receiver_path : String → ReceiverConfig → RuntimeConfig F → String
  receiver_path project_root receiver runtime =
      str_path (child (binary_dir project_root runtime) receiver.binary)

  unfoldable pub receiver_options :
      ReceiverConfig → RuntimeConfig F → String → String → ℕ → List String
  receiver_options receiver runtime output stats batch =
      option "--output" output
      ++ option "--stats" stats
      ++ option "--port" (str_int runtime.port)
      ++ option "--max-packets" "0"
      ++ option "--scheduler" runtime.scheduler
      ++ option "--priority" (str_int runtime.priority)
      ++ option "--work" (str_int (get_or receiver.work_ns (pos 0)))
      ++ option "--sample-every" (str_int (get_or receiver.sample_every (pos 1)))
      ++ option "--socket-buffer" (str_int (get_or runtime.receive_buffer_bytes (pos 0)))
      ++ cpu_option "--cpu" runtime.receiver_cpu
      ++ (if takes_batch receiver.binary then option "--batch" (str_nat batch) else [])
      ++ (if receiver.binary == "receiver_threaded"
          then cpu_option "--worker-cpu" runtime.worker_cpu
          else [])

  unfoldable pub receiver_command :
      String → ReceiverConfig → RuntimeConfig F → String → String → ℕ → Result (List String)
  receiver_command project_root receiver runtime output stats batch = do
    prefix ← global_prefix runtime
    ok (
        prefix
        ++ receiver_path project_root receiver runtime
          ∷ receiver_options receiver runtime output stats batch)

  unfoldable pub sender_options :
      (F → String)
      → String
      → ReceiverConfig
      → SenderConfig F
      → RuntimeConfig F
      → String
      → ℕ
      → ℕ
      → Option String
      → List String
  sender_options str_number receiver_host receiver sender runtime stats rate burst pacing_trace =
      option "--ip" receiver_host
      ++ option "--port" (str_int runtime.port)
      ++ option "--rate" (str_nat rate)
      ++ option "--duration" (str_number sender.duration_seconds)
      ++ option "--mode" sender.mode
      ++ option "--burst" (str_nat burst)
      ++ option "--payload-size" (str_int sender.payload_size)
      ++ option "--timestamp-every" (str_int (get_or receiver.sample_every (pos 1)))
      ++ option "--socket-buffer" (str_int (get_or runtime.send_buffer_bytes (pos 0)))
      ++ option "--stats" stats
      ++ option "--send-batch-max" (str_int (get_or sender.send_batch_max (pos 1)))
      ++ option "--batch-window-us" (str_int (get_or sender.batch_window_us (pos 10)))
      ++ option "--threads" (str_int (get_or sender.threads (pos 1)))
      ++ sender_cpus sender.cpus runtime.sender_cpu
      ++ trace_option pacing_trace

  unfoldable pub sender_command :
      (F → String)
      → String
      → String
      → ReceiverConfig
      → SenderConfig F
      → RuntimeConfig F
      → String
      → ℕ
      → ℕ
      → Option String
      → Result (List String)
  sender_command str_number project_root receiver_host receiver sender runtime stats rate burst
        pacing_trace =
      do
        prefix ← global_prefix runtime
        ok (
            prefix
            ++ str_path (child (binary_dir project_root runtime) "sender")
              ∷ sender_options str_number receiver_host receiver sender runtime stats rate burst
                  pacing_trace)
