-- ===== src/Lib.antt =====
-- The verification library of net-latency-lab, a two-node UDP latency benchmark. An orchestrator
-- (main.py) plans the runs of a campaign, executes each between a receiver and a sender process on
-- two nodes, judges it, and writes what it measured; the analysis (analysis/) loads the receiver's
-- binary logs. The parts meet in `run_campaign`: it plans (Campaign), runs an item with retries
-- (Execution), stops the processes (Process), compares counter snapshots (Counters) and judges the run (Verdict).
--
-- - Base, Python: shared helpers. Lists with native numbers, integers of any size, exceptions as a
--   `Result`, code that reads and changes a state with what it keeps, the text of numbers, and the
--   paths of pathlib (two slashes at the start of a path count as one).
-- - Process: `ProcessHandle`, `NodeController.wait_pid_exit`, `shutdown_process` and
--   `instrument_workload` of main.py. What a node answers may depend on all calls before it, so a
--   node is a function of the history of calls, and the statements are about that history. Times are
--   nanoseconds. The polling loop takes timeout / 50 ms + 2 rounds, which
--   Process/Shutdown/Termination shows to be enough.
-- - Process/Launch: `LocalNode.start_process` and `wait_for_local_pid_file` of main.py, on the history
--   of requests to the operating system. FileNotFoundError of the read and ProcessLookupError of
--   the signal are answers of their own; the rest are exceptions. The loop takes
--   timeout / 10 ms + 1 rounds, which Process/Launch/Fuel shows to be enough.
-- - Process/Local: the other methods of `LocalNode` but `run`. ProcessLookupError and PermissionError of
--   a signal are answers of their own; of a handle the model keeps whether it has its process and
--   whether it holds the log's stream, which `wait_process` gives up.
-- - Process/Remote: `start_process` (in Process/Remote/Start), `wait_process`, `signal_process`,
--   `signal_wrapper`, `process_exists` and `remove_files` of `RemoteNode` in main.py, on the shell
--   commands that `_exec` gets; what it comes to is a function of the history. The loop takes
--   timeout / 50 ms + 1 rounds, enough for a host whose sleeps last for the time that was asked, and
--   raises the timeout after them.
-- - Campaign: `make_run_tuples`, `qualification_rates`, and `execute_with_progress` and the phases
--   of `run_campaign` of main.py. A run, a reconnection and a build are actions on the state of the
--   nodes, given by the record `Environment`; Campaign/Nodes gives it for the two nodes, with
--   `build_node` and the `execute_run` of Execution, and with a reconnection that asks nothing of the
--   processes. The shuffle is a parameter. The manifest stands for the file as last written.
-- - Profiles: `validate_profile_session` of analysis/profile_tools.py, on what the files of a session hold
--   as JSON; the values are those of Config. The path that it returns is left out.
-- - Evidence: the blockers of a claim and `generate` of analysis/generate_claim_evidence.py, from the
--   selected configurations and the medians of the profiles on. Comparisons and division of floats are
--   a parameter; the words of the sentence are left out.
-- - Config: `validate_config` of main.py, on the values that a YAML file may hold. An operation on a
--   value of another type raises what Python raises; comparisons of floats are a parameter. The set
--   of a list's CPUs is not built: a list with an item that is no nonnegative integer is refused
--   with the same exception, however many of its items are equal.
-- - Execution: `execute_run` of main.py with `receiver_command` and `sender_command`, on a
--   configuration that `validate_config` accepts. A run is code on the locals that its `finally`
--   clause reads and on the history of requests to the two nodes and the session's directory; an
--   answer is a function of that history, so the statements hold for all answers. A call of
--   `start_process`, `wait_process`, `shutdown_process`, `run_state` or `snapshot_counters` is one
--   request. Numbers that may be fractions are of a type `F` with the operations that the source
--   uses. The tuning state and the environment, which are passed on, are left out of the metadata.
-- - Counters: `snapshot_counters` of main.py over what the node answers to its one command, with
--   `split_counter_sections`, `parse_counter` and the parsers of /proc/net, `tc` and `ethtool`
--   (Kernel), and `counter_deltas`. Texts are native strings, dicts are lists of pairs, and the text
--   of an exception is a parameter. Digits and word characters are those of ASCII.
-- - Verdict: `throttled`, `throttling_is_clear`, `link_is_gigabit_full`, `validity_reasons` and
--   `qualification_reasons` of main.py. The fields of the statistics are options, none where a key
--   is missing. A message of the validity verdict is a constructor that carries what its f-string
--   shows. The comparisons of the qualification verdict in floating point are a parameter.
-- - Pacing: `nearest_rank` and `analyze_pacing_trace` of main.py, from the integers of the rows of the
--   trace on. The ranks and the band, products in floating point, are a parameter.
-- - Traces: `load_binary_file`, `_derive_metrics` and `sequence_statistics` of
--   analysis/latency_utils.py, on the bytes of a file, and the encoder of src/common/csv_writer.hpp.
--   The columns in microseconds are floats and are left out.
--
-- Not modelled: `run`, the connections and the transfers of the node controllers (SSH, SCP and
-- subprocess calls), drift correction, run summaries, profile selection, plots, and the C++ of the
-- sender and the receiver but for the log's encoder. The loops over lists are structural; the polling
-- loops and the two attempts at a run count down.
pub mod Base
pub mod Python
pub mod Process
pub mod Profiles
pub mod Evidence
pub mod Campaign
pub mod Config
pub mod Execution
pub mod Traces
pub mod Verdict
pub mod Counters
pub mod Pacing
