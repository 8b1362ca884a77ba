-- ===== src/Execution/Run/Removal.antt =====
-- The artifacts on the nodes in `execute_run` (main.py), and the metadata that are written before
-- they are removed.
pub mod Kept
use net_latency_lab.Base.{
  String, Bool, true, false, Option, none, some, List, [], ◌∷◌, ◌≡◌, refl, sym, subst, ◌&&◌, ◌||◌,
  arith, inl, inr, Bool-cases,
}
use net_latency_lab.Base.Int.{ℤ}
use net_latency_lab.Python.Error.{Error, Result, ok, err}
use net_latency_lab.Python.Stateful.{Stateful, lift, give, ◌>>=◌, ◌>>◌}
use net_latency_lab.Python.Stateful.Keeps.{
  Keeps, Triple-Keeps, Keeps->>=, Keeps-swallow, Keeps-try_finally, keeps_rules,
}
use net_latency_lab.Process.Node.{ProcessHandle}
use net_latency_lab.Campaign.Schedule.{RunTuple}
use net_latency_lab.Pacing.Report.{Percentiles}
use net_latency_lab.Verdict.Qualification.{Floats}
use net_latency_lab.Execution.Lab.{
  Side, receiver, sender, Request, make_run_dir, run, start_process, sleep, process_exists,
  run_state, snapshot_counters, wait_process, shutdown_process, fetch_file, require_nonempty_file,
  read_json, read_rows, write_text, write_metadata, remove_files, History, Lab, Locals, no_locals,
  asked, assign, ask, ask_then, pause,
}
use net_latency_lab.Execution.Plan.{Plan, RunConfig}
use net_latency_lab.Execution.Measure.{Numbers, start_receiver, run_sender, stop_receiver, measure}
use net_latency_lab.Execution.Stable.{
  is_neutral, IsStable, Keeps-pause, snapshot_before-Keeps, snapshot_after-Keeps,
  check_workload-Keeps, make_plan-Keeps, conclude-Keeps,
}
use net_latency_lab.Execution.Run.{
  stop_if_active, remove_if, cleanup, run_body, run_plan, execute_run,
}
use net_latency_lab.Execution.Run.Silent.{is_ok}

abbrev pub removes : {F : Type 0} → Request F → Bool
removes (remove_files side paths) = true
removes other = false

abbrev pub writes : {F : Type 0} → Request F → Bool
writes (write_metadata path) = true
writes other = false

module _ {F : Type 0} (lab : Lab F) where
  -- The metadata were written, and that returned.
  unfoldable pub has_written : History F → Bool
  has_written [] = false
  has_written (request ∷ h) = writes request && is_ok (lab.done (request ∷ h)) || has_written h

  -- Each removal of files comes after the metadata were written.
  unfoldable pub IsSafe : History F → Type 0
  IsSafe [] = Unit
  IsSafe (request ∷ h) = (removes request ≡ true → has_written h ≡ true) × IsSafe h

  abbrev pub Tidy : Locals F → Type 0
  Tidy s = IsSafe s.history × (s.cleanup_eligible ≡ true → has_written s.history ≡ true)

  -- From when the metadata are written.
  abbrev pub Saved : Locals F → Type 0
  Saved s = IsSafe s.history × (has_written s.history ≡ true)

  pub Tidy-other :
      (request : Request F)
      → removes request ≡ false
      → (s : Locals F) → Tidy s
      → Tidy (asked request s)
  unfolding has_written IsSafe
  Tidy-other request other s (safe, eligible) =
      (((λ removed. cc), safe), λ e. ground (arith, eligible e))

  pub Saved-any : (request : Request F) (s : Locals F) → Saved s → Saved (asked request s)
  unfolding has_written IsSafe
  Saved-any request s (safe, written) = (((λ removed. written), safe), ground (arith, written))

  neutral-other : (request : Request F) → is_neutral request ≡ true → removes request ≡ false
  neutral-other (make_run_dir path) n = refl
  neutral-other (run side command timeout) n = refl
  neutral-other (start_process side command log index) n = refl
  neutral-other (sleep seconds) n = refl
  neutral-other (process_exists side pid) n = refl
  neutral-other (run_state side interface) n = refl
  neutral-other (snapshot_counters side interface) n = refl
  neutral-other (wait_process side handle timeout) n = refl
  neutral-other (shutdown_process side handle timeout) n = refl
  neutral-other (fetch_file side remote local) n = refl
  neutral-other (require_nonempty_file path description) n = refl
  neutral-other (read_json path) n = refl
  neutral-other (read_rows path) n = refl
  neutral-other (write_text path) n = refl
  neutral-other (write_metadata path) n = refl
  neutral-other (remove_files side paths) n = cc

  written-Tidy :
      (path : String) (s : Locals F)
      → lab.done (write_metadata path ∷ s.history) ≡ ok tt
      → has_written (write_metadata path ∷ s.history) ≡ true
  unfolding has_written
  written-Tidy path s e = rw e refl

  pub Tidy-IsStable : IsStable lab Tidy
  Tidy-IsStable = record {
    neutral = λ request n. Tidy-other request (neutral-other request n);
    written = λ path s e tidy.
        ((Tidy-other (write_metadata path) refl s tidy).0, λ eligible. written-Tidy path s e);
  }
