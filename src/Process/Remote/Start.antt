-- ===== src/Process/Remote/Start.antt =====
-- `RemoteNode.start_process` (main.py): one shell command starts the process behind a monitor and prints the
-- PIDs.
pub mod Killed
use net_latency_lab.Base.{
  ℕ, String, Bool, true, false, not, Option, none, some, List, ◌∷◌, [], map, length, ◌==◌,
  if◌then◌else◌,
}
use net_latency_lab.Base.Int.{ℤ}
use net_latency_lab.Python.Error.{Error, Result, ok, err, raise_if, ◌>>◌}
use net_latency_lab.Python.Error.{◌>>=◌ as then_result}
use net_latency_lab.Python.Show.{concat, join}
use net_latency_lab.Python.Spaces.{split_words, read_int}
use net_latency_lab.Python.Stateful.{Stateful, lift, give, ended, ◌>>=◌}
use net_latency_lab.Process.Workload.{quote, instrument_workload}
use net_latency_lab.Process.Launch.{workload_pid_path}
use net_latency_lab.Process.Remote.{Step, History, Host, Remote, exec_over_ssh}
use Prim.Native.String.{◌++◌ as str_append}

-- The PIDs of the handle that is returned; the command and the path of its log are the arguments.
pub record Pids : Type 0 where
  pub monitor : ℤ
  pub child : ℤ
  pub workload : Option ℤ

abbrev pub quoted_in : String → String → String → String
quoted_in before path after = concat (before ∷ quote path ∷ after ∷ [])

abbrev pub pid_path : String → String
pid_path log_path = str_append log_path ".pid"

abbrev pub inner_script : List String → String → String
inner_script actual_command log_path = concat (
    "setsid "
    ∷ join " " (map quote actual_command)
    ∷ " & child=$!; "
    ∷ quoted_in "printf '%s' \"$child\" > " (pid_path log_path) "; "
    ∷ "wait \"$child\"; code=$?; "
    ∷ quoted_in "printf '%s' \"$code\" > " (str_append log_path ".status") "; exit \"$code\""
    ∷ [])

abbrev pub path_or : Option String → String → String
path_or none default = default
path_or (some path) default = path

abbrev pub workload_print : Option String → String
workload_print none = ""
workload_print (some path) = quoted_in "; printf ' %s' \"$(cat " path ")\""

abbrev pub launch_command : List String → String → Option String → String
launch_command actual_command log_path workload_path =
    let status = str_append log_path ".status" in
    concat (
      quoted_in "nohup sh -c " (inner_script actual_command log_path) " > "
      ∷ quote log_path
      ∷ " "
      ∷ "2>&1 < /dev/null & monitor=$!; "
      ∷ quoted_in "while test ! -s " (path_or workload_path (pid_path log_path)) "; do "
      ∷ quoted_in "if test -s " status "; then "
      ∷ quoted_in "code=$(cat " status "); wait \"$monitor\" 2>/dev/null || true; "
      ∷ "exit \"$code\"; fi; "
      ∷ "if ! kill -0 \"$monitor\" 2>/dev/null; then wait \"$monitor\"; exit $?; fi; "
      ∷ "sleep 0.01; done; "
      ∷ quoted_in "printf '%s %s' \"$monitor\" \"$(cat " (pid_path log_path) ")\""
      ∷ workload_print workload_path
      ∷ "; printf '\n'"
      ∷ [])

-- Kills the group whose PID was published, if there is one.
abbrev pub kill_group_command : String → String
kill_group_command log_path = concat (
    quoted_in "pid=$(cat " (pid_path log_path) " 2>/dev/null); "
    ∷ "test -n \"$pid\" && kill -KILL -\"$pid\" 2>/dev/null; true"
    ∷ [])

abbrev pub expected_pids : Option String → ℕ
expected_pids none = 2
expected_pids (some path) = 3

unfoldable pub launched_words : Option String → Result String → Result (List String)
launched_words workload_path (err exc) = err exc
launched_words workload_path (ok text) =
    let words = split_words text in
    raise_if (not (length words == expected_pids workload_path)) (
      Error.runtime_error
        (concat ("Remote process launch returned invalid PIDs: " ∷ join " " words ∷ [])))
    >> ok words

abbrev pub workload_of : Option String → List String → Result (Option ℤ)
workload_of none words = ok none
workload_of (some path) (word ∷ words) = then_result (read_int word) (λ pid. ok (some pid))
workload_of (some path) [] = err Error.index_error

-- `map(int, output[:2])`, and `int(output[2])` of a tracked workload
unfoldable pub read_pids : Option String → List String → Result Pids
read_pids workload_path (monitor ∷ child ∷ words) = then_result (read_int monitor) λ m.
    then_result (read_int child) λ c.
      then_result (workload_of workload_path words)
        λ w. ok (record { monitor = m; child = c; workload = w })
read_pids workload_path words = err (Error.value_error "not enough values to unpack")

module _ (host : Host) where
  unfoldable pub kill_group : String → Remote (Unit {0})
  unfolding exec_over_ssh
  kill_group log_path = exec_over_ssh host (kill_group_command log_path) >>= λ output. give tt

  -- The `except` clause, after which the exception is raised again
  unfoldable pub kill_and_reraise :
      String → Result (List String) × History → Result (List String) × History
  unfolding kill_group
  kill_and_reraise log_path (ok words, h) = (ok words, h)
  kill_and_reraise log_path (err exc, h) = ended (err exc) (kill_group log_path h)

  unfoldable pub launch : String → String → Option String → Remote (List String)
  unfolding launched_words
  launch command log_path workload_path h =
      (launched_words workload_path (host.output (Step.exec command ∷ h)), Step.exec command ∷ h)

  unfoldable pub launch_or_kill : String → String → Option String → Remote (List String)
  unfolding launch kill_and_reraise
  launch_or_kill command log_path workload_path h =
      kill_and_reraise log_path (launch command log_path workload_path h)

  unfoldable pub start_process : List String → String → Option ℤ → Remote Pids
  unfolding instrument_workload launch_or_kill read_pids
  start_process command log_path index =
      let path = workload_pid_path log_path index in
      lift (instrument_workload command index path) >>= λ actual_command.
      launch_or_kill (launch_command actual_command log_path path) log_path path >>= λ words.
      lift (read_pids path words)
