-- ===== src/Config/Tests.antt =====
-- A configuration that `validate_config` accepts, and the properties on it.
use net_latency_lab.Base.{ℕ, none, ◌≡◌, refl, ltb, leb, ◌==◌}
use net_latency_lab.Base.Int.{pos, pos_part}
use net_latency_lab.Python.Error.{err}
use net_latency_lab.Config.Value.{
  Value, int, float, str, array, object, Items, nil, cons, Entries, end, entry, Conversions,
  value_error, find, all_chars,
}
use net_latency_lab.Config.Global.{
  check_global, global_of, node_of, interface_of, check_topology, check_nodes, check_fields,
}
use net_latency_lab.Config.Runtime.{check_runtime, check_priority}
use net_latency_lab.Config.Benchmark.{check_receiver, check_required, check_mode, check_cpus}
use net_latency_lab.Config.Sender.{check_load, check_threads, check_sender}
use net_latency_lab.Config.Validate.{
  check_enabled, check_benchmark, check_benchmarks, validate_config,
}

-- Floats with natural values.
abbrev conversions : Conversions ℕ
conversions = record {
  at_most = λ f n. leb f (pos_part n);
  at_least = λ f n. leb (pos_part n) f;
  below = λ f n. ltb f (pos_part n);
  equals = λ f n. f == pos_part n;
  one = 1;
  of_text = λ t. none;
  str_other = λ v. "";
}

abbrev node : Value ℕ
node = object (
    entry "management_host" (str "127.0.0.1")
      (entry "benchmark_ip" (str "127.0.0.1") (entry "interface" (str "lo") end)))

abbrev settings : Entries ℕ
settings = entry "repetitions" (int (pos 3)) (
    entry "port" (int (pos 9000)) (
      entry "receiver_startup_seconds" (float 1) (
        entry "shutdown_timeout_seconds" (int (pos 5))
          (entry "scheduler" (str "fifo") (entry "priority" (int (pos 50)) end)))))

abbrev global : Entries ℕ
global = entry "topology" (str "local_loopback") (
    entry "remote_project_root" (str "/opt/lab") (
      entry "local_data_dir" (str "data") (
        entry "user" (str "lab") (
          entry "nodes" (object (entry "receiver" node (entry "sender" node end))) (
            entry "runtime" (object settings) (
              entry "metadata_collection" (object end) (entry "tuning_state" (object end) end)))))))

abbrev benchmark : Value ℕ
benchmark = object (
    entry "name" (str "smoke-1") (
      entry "receiver"
        (object (
          entry "binary" (str "receiver_batched")
            (entry "batch_sizes" (array (cons (int (pos 1)) (cons (int (pos 32)) nil))) end)))
        (entry "sender"
          (object (
            entry "mode" (str "steady") (
              entry "duration_seconds" (int (pos 10)) (
                entry "rates_pps" (array (cons (int (pos 1000)) nil))
                  (entry "payload_size" (int (pos 64)) end)))))
          end)))

abbrev with_benchmarks : Items ℕ → Value ℕ
with_benchmarks items =
    object (entry "global" (object global) (entry "benchmarks" (array items) end))

abbrev config : Value ℕ
config = with_benchmarks (cons benchmark nil)

-- A name may stand once.
twice_refused :
    validate_config conversions (with_benchmarks (cons benchmark (cons benchmark nil)))
    ≡ err (value_error "Benchmark names must be unique safe identifiers")
unfolding validate_config global_of check_global find node_of interface_of all_chars check_topology
    check_nodes check_fields check_runtime check_priority check_benchmarks check_benchmark
    check_enabled check_receiver check_sender check_required check_mode check_load check_threads
    check_cpus
twice_refused = refl
