-- ===== src/Execution/Lab.antt =====
-- What `execute_run` (main.py) asks of the two nodes and of the session's directory, and its locals.
-- An answer may depend on everything asked before, so an answer is a function of the history.
use net_latency_lab.Base.{ℕ, String, Bool, false, Option, none, List, ◌∷◌}
use net_latency_lab.Base.Int.{ℤ}
use net_latency_lab.Python.Error.{Result, ok, err}
use net_latency_lab.Python.Stateful.{Stateful}
use net_latency_lab.Process.Node.{ProcessHandle}
use net_latency_lab.Counters.Deltas.{Sample}
use net_latency_lab.Verdict.State.{State}
use net_latency_lab.Execution.Report.{SenderReport, ReceiverReport}

pub data Side : Type 0 where
  receiver sender : Side

pub data Request (F : Type 0) : Type 0 where
  -- `run_dir.mkdir(exist_ok=True)`
  make_run_dir : String → Request F
  -- `run` of a node, with a timeout in seconds
  run : Side → List String → ℕ → Request F
  start_process : Side → List String → String → Option ℤ → Request F
  -- `time.sleep`
  sleep : F → Request F
  process_exists : Side → ℕ → Request F
  run_state : Side → String → Request F
  snapshot_counters : Side → String → Request F
  wait_process : Side → ProcessHandle → F → Request F
  shutdown_process : Side → ProcessHandle → F → Request F
  fetch_file : Side → String → String → Request F
  require_nonempty_file : String → String → Request F
  -- `safe_read_json`, and the rows of a pacing trace
  read_json read_rows : String → Request F
  write_text : String → Request F
  -- `metadata_path.write_text`
  write_metadata : String → Request F
  remove_files : Side → List String → Request F

-- Newest request first.
abbrev pub History : Type 0 → Type 0
History F = List (Request F)

-- The answer to the newest request of a history.
pub record Lab (F : Type 0) : Type 0 where
  pub done : History F → Result (Unit {0})
  pub output : History F → Result String
  pub started : History F → Result ProcessHandle
  pub exists : History F → Result Bool
  pub status : History F → Result ℤ
  pub state : History F → Result State
  pub counters : History F → Result (List (String × Sample))
  pub sender_stats : History F → Result (SenderReport F)
  pub receiver_stats : History F → Result ReceiverReport
  -- whether the header of the trace has the three columns, and its rows
  pub rows : History F → Result (Bool × List (ℤ × ℤ × ℤ))

-- The locals that the `finally` clause reads, and what was asked so far.
pub record Locals (F : Type 0) : Type 0 where
  pub history : History F
  pub active_receiver : Option ProcessHandle
  pub active_sender : Option ProcessHandle
  pub cleanup_eligible : Bool

abbrev pub no_locals : {F : Type 0} → History F → Locals F
no_locals history = record {
  history = history;
  active_receiver = none;
  active_sender = none;
  cleanup_eligible = false;
}

abbrev pub Run : Type 0 → Type 0 → Type 0
Run F A = Stateful (Locals F) A

abbrev pub asked : {F : Type 0} → Request F → Locals F → Locals F
asked request s = record s { history = request ∷ s.history }

module _ {F A : Type 0} where
  -- The assignment that follows a call, if the call returned.
  abbrev pub assign : (A → Locals F → Locals F) → Result A → Locals F → Locals F
  assign change (ok value) s = change value s
  assign change (err exc) s = s

  unfoldable pub ask_then : Request F → (History F → Result A) → (A → Locals F → Locals F) → Run F A
  ask_then request answer change s =
      (answer (request ∷ s.history), assign change (answer (request ∷ s.history)) (asked request s))

  unfoldable pub ask : Request F → (History F → Result A) → Run F A
  ask request answer s = (answer (request ∷ s.history), asked request s)

unfoldable pub pause : {F : Type 0} → F → Run F (Unit {0})
pause seconds s = (ok tt, asked (sleep seconds) s)
