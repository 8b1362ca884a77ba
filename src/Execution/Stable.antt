-- ===== src/Execution/Stable.antt =====
-- Predicates that the parts of `execute_run` (main.py) keep which start and stop no process and
-- remove no file.
use net_latency_lab.Base.{ℕ, String, Bool, true, false, Option, none, some, List, ◌∷◌, ◌≡◌, refl}
use net_latency_lab.Python.Error.{Error, Result, ok, err}
use net_latency_lab.Python.Stateful.Keeps.{Keeps, keeps_rules}
use net_latency_lab.Python.Stateful.Triple.{After, Triple}
use net_latency_lab.Campaign.Schedule.{RunTuple}
use net_latency_lab.Pacing.Report.{Percentiles}
use net_latency_lab.Verdict.Qualification.{Floats}
use net_latency_lab.Execution.Lab.{
  Request, make_run_dir, run, start_process, sleep, process_exists, run_state, snapshot_counters,
  wait_process, shutdown_process, fetch_file, require_nonempty_file, read_json, read_rows,
  write_text, write_metadata, remove_files, History, Lab, Locals, asked, ask, ask_then, pause,
  assign,
}
use net_latency_lab.Execution.Plan.{Plan, BenchmarkConfig, RunConfig, profiled_command, make_plan}
use net_latency_lab.Execution.Measure.{
  Numbers, Measured, snapshot_before, snapshot_after, check_workload,
}
use net_latency_lab.Execution.Metadata.{Metadata}
use net_latency_lab.Execution.Collect.{
  fetch_pacing, fetch_stats, add_pacing, add_stat, add_record, add_profile, set_eligible, conclude,
}

-- A request that neither starts nor stops a process and removes no file.
abbrev pub is_neutral : {F : Type 0} → Request F → Bool
is_neutral (make_run_dir path) = true
is_neutral (run side command timeout) = true
is_neutral (start_process side command log index) = false
is_neutral (sleep seconds) = true
is_neutral (process_exists side pid) = true
is_neutral (run_state side interface) = true
is_neutral (snapshot_counters side interface) = true
is_neutral (wait_process side handle timeout) = false
is_neutral (shutdown_process side handle timeout) = false
is_neutral (fetch_file side remote local) = true
is_neutral (require_nonempty_file path description) = true
is_neutral (read_json path) = true
is_neutral (read_rows path) = true
is_neutral (write_text path) = true
is_neutral (write_metadata path) = true
is_neutral (remove_files side paths) = false

module _ {F : Type 0} (lab : Lab F) where
  pub record IsStable (P : Locals F → Type 0) : Type 0 where
    pub neutral :
        (request : Request F)
        → is_neutral request ≡ true
        → (s : Locals F) → P s
        → P (asked request s)
    pub written :
        (path : String) (s : Locals F)
        → lab.done (write_metadata path ∷ s.history) ≡ ok tt
        → P s
        → P (set_eligible tt (asked (write_metadata path) s))

module _ {F A : Type 0} (lab : Lab F) (P : Locals F → Type 0) (stable : IsStable lab P) where
  pub Keeps-ask :
      (request : Request F) (answer : History F → Result A)
      → is_neutral request ≡ true
      → Keeps P (ask request answer)
  unfolding ask
  Keeps-ask request answer harmless = record { at = stable.neutral request harmless }

module _ {F : Type 0} (lab : Lab F) (P : Locals F → Type 0) (stable : IsStable lab P) where
  pub Keeps-pause : (seconds : F) → Keeps P (pause seconds)
  unfolding pause
  Keeps-pause seconds = record { at = stable.neutral (sleep seconds) refl }

module _ {F A : Type 0} (P : Locals F → Type 0) (Q : A → Locals F → Type 0) (E : Locals F → Type 0)
    (request : Request F) (answer : History F → Result A) (change : A → Locals F → Locals F)
    (returns : (s : Locals F) (value : A)
      → P s
      → answer (request ∷ s.history) ≡ ok value
      → Q value (change value (asked request s)))
    (raises : (s : Locals F) (exc : Error)
      → P s
      → answer (request ∷ s.history) ≡ err exc
      → E (asked request s)) where
  ask_then-After :
      (s : Locals F)
      → P s
      → (r : Result A) → answer (request ∷ s.history) ≡ r
      → After Q E (r, assign change r (asked request s))
  ask_then-After s p (ok value) e = returns s value p e
  ask_then-After s p (err exc) e = raises s exc p e

  -- A request with an assignment, by the two kinds of its answer.
  pub Triple-ask_then : Triple P (ask_then request answer change) Q E
  unfolding ask_then
  Triple-ask_then = record { after = λ s p. ask_then-After s p (answer (request ∷ s.history)) refl }

module _ {F : Type 0} (lab : Lab F) (plan : Plan F) (P : Locals F → Type 0)
    (stable : IsStable lab P) where
  pub snapshot_before-Keeps : Keeps P (snapshot_before lab plan)
  unfolding snapshot_before
  snapshot_before-Keeps = search (keeps_rules, Keeps-ask, stable)

  pub snapshot_after-Keeps : Keeps P (snapshot_after lab plan)
  unfolding snapshot_after
  snapshot_after-Keeps = search (keeps_rules, Keeps-ask, stable)

  pub check_workload-Keeps : (pid : Option ℕ) → Keeps P (check_workload lab plan pid)
  unfolding check_workload
  check_workload-Keeps none = search keeps_rules
  check_workload-Keeps (some pid) = search (keeps_rules, Keeps-ask, stable)

  fetch_pacing-Keeps : (path : Option String) → Keeps P (fetch_pacing lab plan path)
  unfolding fetch_pacing
  fetch_pacing-Keeps none = search keeps_rules
  fetch_pacing-Keeps (some path) = search (keeps_rules, Keeps-ask, stable)

  fetch_stats-Keeps : Keeps P (fetch_stats lab plan)
  unfolding fetch_stats
  fetch_stats-Keeps = search (keeps_rules, Keeps-ask, stable, fetch_pacing-Keeps) depth 20

  add_stat-Keeps : (metadata : Metadata F) → Keeps P (add_stat lab plan metadata)
  unfolding add_stat
  add_stat-Keeps metadata = search (keeps_rules, Keeps-ask, stable)

  add_record-Keeps : (metadata : Metadata F) → Keeps P (add_record lab plan metadata)
  unfolding add_record
  add_record-Keeps metadata = search (keeps_rules, Keeps-ask, stable) depth 20

  add_profile-Keeps : (metadata : Metadata F) → Keeps P (add_profile lab plan metadata)
  unfolding add_profile
  add_profile-Keeps metadata = search (keeps_rules, add_stat-Keeps, add_record-Keeps)

  written-cases :
      (path : String) (s : Locals F) (answer : Result (Unit {0}))
      → lab.done (write_metadata path ∷ s.history) ≡ answer
      → P s
      → P (assign set_eligible answer (asked (write_metadata path) s))
  written-cases path s (ok _) e p = stable.written path s e p
  written-cases path s (err exc) e p = stable.neutral (write_metadata path) refl s p

  write-Keeps : (path : String) → Keeps P (ask_then (write_metadata path) lab.done set_eligible)
  unfolding ask_then
  write-Keeps path = record {
    at = λ s p. written-cases path s (lab.done (write_metadata path ∷ s.history)) refl p;
  }

module _ {F : Type 0} (lab : Lab F) (P : Locals F → Type 0) (stable : IsStable lab P) where
  profiled_command-Keeps :
      (benchmark : BenchmarkConfig F) (remote_profile : String) (command : List String)
      → Keeps P (profiled_command lab benchmark remote_profile command)
  unfolding profiled_command
  profiled_command-Keeps benchmark remote_profile command =
      search (keeps_rules, Keeps-ask, stable) depth 20

module _ {F : Type 0} (str_number : F → String) (lab : Lab F) (P : Locals F → Type 0)
    (stable : IsStable lab P) where
  pub make_plan-Keeps :
      (config : RunConfig F) (session_id : String) (item : RunTuple)
      → Keeps P (make_plan str_number lab config session_id item)
  unfolding make_plan
  make_plan-Keeps config session_id item =
      search (keeps_rules, Keeps-ask, stable, profiled_command-Keeps) depth 20

module _ {F : Type 0} (numbers : Numbers F) (floats : Floats F) (percentiles : Percentiles)
    (lab : Lab F) (plan : Plan F) (P : Locals F → Type 0) (stable : IsStable lab P) where
  add_pacing-Keeps :
      (enabled : Bool) (metadata : Metadata F)
      → Keeps P (add_pacing numbers floats percentiles lab plan enabled metadata)
  unfolding add_pacing
  add_pacing-Keeps true metadata = search (keeps_rules, Keeps-ask, stable)
  add_pacing-Keeps false metadata = search keeps_rules

  -- The artifacts are fetched and the metadata are written without a change to a stable predicate.
  pub conclude-Keeps :
      (measured : Measured) → Keeps P (conclude numbers floats percentiles lab plan measured)
  unfolding conclude
  conclude-Keeps measured =
      search (keeps_rules, fetch_stats-Keeps, add_pacing-Keeps, add_profile-Keeps, write-Keeps)
        depth 20
