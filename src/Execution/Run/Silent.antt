-- ===== src/Execution/Run/Silent.antt =====
-- The silence of the control plane in `execute_run` (main.py) while the sender runs.
pub mod Kept
pub mod Ended
use net_latency_lab.Base.{
  String, Bool, true, false, Option, none, some, List, [], ◌∷◌, ◌≡◌, refl, ◌&&◌,
}
use net_latency_lab.Base.Int.{ℤ}
use net_latency_lab.Python.Error.{Error, Result, ok, err}
use net_latency_lab.Python.Stateful.{Stateful, lift, give, ◌>>=◌, ◌>>◌}
use net_latency_lab.Python.Stateful.Keeps.{
  Keeps, Triple-Keeps, Keeps->>=, Keeps-swallow, Keeps-try_finally, keeps_rules,
}
use net_latency_lab.Python.Stateful.Triple.{After, Triple, either, Triple->>=}
use net_latency_lab.Process.Node.{ProcessHandle}
use net_latency_lab.Campaign.Schedule.{RunTuple}
use net_latency_lab.Pacing.Report.{Percentiles}
use net_latency_lab.Verdict.Qualification.{Floats}
use net_latency_lab.Execution.Lab.{
  Side, receiver, sender, Request, make_run_dir, run, start_process, sleep, process_exists,
  run_state, snapshot_counters, wait_process, shutdown_process, fetch_file, require_nonempty_file,
  read_json, read_rows, write_text, write_metadata, remove_files, History, Lab, Locals, no_locals,
  asked, assign, ask, ask_then, pause,
}
use net_latency_lab.Execution.Plan.{Plan, RunConfig, sender_log}
use net_latency_lab.Execution.Measure.{
  Numbers, set_sender, silence_seconds, start_receiver, run_sender, stop_receiver, measure,
}
use net_latency_lab.Execution.Stable.{
  is_neutral, IsStable, Keeps-ask, Keeps-pause, Triple-ask_then, snapshot_before-Keeps,
  snapshot_after-Keeps, check_workload-Keeps, make_plan-Keeps, conclude-Keeps,
}
use net_latency_lab.Execution.Run.{
  stop_if_active, remove_if, cleanup, run_body, run_plan, execute_run,
}

abbrev pub is_ok : {A : Type 0} → Result A → Bool
is_ok (ok value) = true
is_ok (err exc) = false

abbrev pub is_sender : Side → Bool
is_sender receiver = false
is_sender sender = true

abbrev pub starts_sender : {F : Type 0} → Request F → Bool
starts_sender (start_process side command log index) = is_sender side
starts_sender other = false

module _ {F : Type 0} (lab : Lab F) where
  -- The newest request is a start of the sender that returned.
  unfoldable pub launched : History F → Bool
  launched [] = false
  launched (request ∷ h) = starts_sender request && is_ok (lab.started (request ∷ h))

  -- Right after each start of the sender comes the sleep of `silence`, and no other request.
  unfoldable pub IsSilent : F → History F → Type 0
  IsSilent silence [] = Unit
  IsSilent silence (request ∷ h) =
      (launched h ≡ true → request ≡ sleep silence) × IsSilent silence h

  -- And the sender was not started just now.
  abbrev pub Quiet : F → Locals F → Type 0
  Quiet silence s = IsSilent silence s.history × (launched s.history ≡ false)

module _ {F : Type 0} (lab : Lab F) (silence : F) where
  pub Quiet-other :
      (request : Request F)
      → starts_sender request ≡ false
      → (s : Locals F) → Quiet lab silence s
      → Quiet lab silence (asked request s)
  unfolding launched IsSilent
  Quiet-other request other s (silent, settled) = ((λ started. cc, silent), rw other refl)

  neutral-other : (request : Request F) → is_neutral request ≡ true → starts_sender request ≡ false
  neutral-other (make_run_dir path) n = refl
  neutral-other (run side command timeout) n = refl
  neutral-other (start_process side command log index) n = cc
  neutral-other (sleep seconds) n = refl
  neutral-other (process_exists side pid) n = refl
  neutral-other (run_state side interface) n = refl
  neutral-other (snapshot_counters side interface) n = refl
  neutral-other (wait_process side handle timeout) n = refl
  neutral-other (shutdown_process side handle timeout) n = refl
  neutral-other (fetch_file side remote local) n = refl
  neutral-other (require_nonempty_file path description) n = refl
  neutral-other (read_json path) n = refl
  neutral-other (read_rows path) n = refl
  neutral-other (write_text path) n = refl
  neutral-other (write_metadata path) n = refl
  neutral-other (remove_files side paths) n = refl

  pub Quiet-IsStable : IsStable lab (Quiet lab silence)
  Quiet-IsStable = record {
    neutral = λ request n. Quiet-other request (neutral-other request n);
    written = λ path s e. Quiet-other (write_metadata path) refl s;
  }
