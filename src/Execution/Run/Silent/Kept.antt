-- ===== src/Execution/Run/Silent/Kept.antt =====
-- The timed interval of every run of `execute_run` (main.py) is silent.
use net_latency_lab.Base.{Bool, true, false, Option, none, some, ◌∷◌, ◌≡◌, refl}
use net_latency_lab.Python.Error.{Result, ok, err}
use net_latency_lab.Python.Stateful.Keeps.{
  Keeps, Triple-Keeps, Keeps->>=, Keeps-swallow, Keeps-try_finally, keeps_rules,
}
use net_latency_lab.Python.Stateful.Triple.{Triple, either, Triple->>=}
use net_latency_lab.Process.Node.{ProcessHandle}
use net_latency_lab.Pacing.Report.{Percentiles}
use net_latency_lab.Verdict.Qualification.{Floats}
use net_latency_lab.Execution.Lab.{
  Side, receiver, sender, Request, start_process, wait_process, History, Lab, Locals, asked, assign,
  ask, ask_then, pause,
}
use net_latency_lab.Execution.Plan.{Plan, sender_log}
use net_latency_lab.Execution.Measure.{
  Numbers, set_sender, clear_sender, runtime, silence_seconds, start_receiver, run_sender,
  stop_receiver, measure,
}
use net_latency_lab.Execution.Stable.{
  Keeps-pause, Triple-ask_then, snapshot_before-Keeps, snapshot_after-Keeps, check_workload-Keeps,
  conclude-Keeps,
}
use net_latency_lab.Execution.Run.{stop_if_active, remove_if, cleanup, run_body, run_plan}
use net_latency_lab.Execution.Run.Silent.{
  starts_sender, launched, IsSilent, Quiet, Quiet-other, Quiet-IsStable,
}

module _ {F A : Type 0} (lab : Lab F) (silence : F) where
  assigned-Quiet :
      (change : A → Locals F → Locals F)
      → ((value : A) (s : Locals F) → (change value s).history ≡ s.history)
      → (answer : Result A) (s : Locals F) → Quiet lab silence s
      → Quiet lab silence (assign change answer s)
  assigned-Quiet change same (ok value) s quiet = rw (same value s) quiet
  assigned-Quiet change same (err exc) s quiet = quiet

  -- A request other than a start of the sender, and an assignment.
  Keeps-assign :
      (request : Request F) (answer : History F → Result A) (change : A → Locals F → Locals F)
      → starts_sender request ≡ false
      → ((value : A) (s : Locals F) → (change value s).history ≡ s.history)
      → Keeps (Quiet lab silence) (ask_then request answer change)
  unfolding ask_then
  Keeps-assign request answer change other same = record {
    at = λ s quiet.
        assigned-Quiet change same (answer (request ∷ s.history)) (asked request s)
          (Quiet-other lab silence request other s quiet);
  }

  Keeps-other :
      (request : Request F) (answer : History F → Result A)
      → starts_sender request ≡ false
      → Keeps (Quiet lab silence) (ask request answer)
  unfolding ask
  Keeps-other request answer other = record { at = Quiet-other lab silence request other }

module _ {F : Type 0} (lab : Lab F) (silence : F) (plan : Plan F) where
  pause-Keeps : (seconds : F) → Keeps (Quiet lab silence) (pause seconds)
  pause-Keeps = Keeps-pause lab (Quiet lab silence) (Quiet-IsStable lab silence)

  start_receiver-Keeps : Keeps (Quiet lab silence) (start_receiver lab plan)
  unfolding start_receiver
  start_receiver-Keeps = search (keeps_rules, Keeps-assign, Keeps-other, pause-Keeps) depth 20

  stop_receiver-Keeps :
      (handle : ProcessHandle) → Keeps (Quiet lab silence) (stop_receiver lab plan handle)
  unfolding stop_receiver
  stop_receiver-Keeps handle =
      search (keeps_rules, Keeps-assign, check_workload-Keeps, Quiet-IsStable) depth 20

  stop_if_active-Keeps :
      (side : Side) (active : Option ProcessHandle)
      → Keeps (Quiet lab silence) (stop_if_active lab plan side active)
  unfolding stop_if_active
  stop_if_active-Keeps side none = search keeps_rules
  stop_if_active-Keeps side (some handle) = search (keeps_rules, Keeps-swallow, Keeps-other)

  remove_if-Keeps : (eligible : Bool) → Keeps (Quiet lab silence) (remove_if lab plan eligible)
  unfolding remove_if
  remove_if-Keeps true = search (keeps_rules, Keeps-other)
  remove_if-Keeps false = search keeps_rules

  cleanup-Keeps : Keeps (Quiet lab silence) (cleanup lab plan)
  unfolding cleanup
  cleanup-Keeps = record {
    at = λ s quiet.
        let whole : Keeps (Quiet lab silence) _ =
          Keeps->>= (Quiet lab silence) _ _
            (Keeps->>= (Quiet lab silence) _ _ (stop_if_active-Keeps sender s.active_sender)
              (λ _. stop_if_active-Keeps receiver s.active_receiver))
            (λ _. remove_if-Keeps s.cleanup_eligible) in
        whole.at s quiet;
  }

module _ {F : Type 0} (numbers : Numbers F) (lab : Lab F) (plan : Plan F) where
  abbrev pub QuietRun : Locals F → Type 0
  QuietRun = Quiet lab (silence_seconds numbers plan)

  launch-Triple :
      Triple QuietRun
        (ask_then
          (start_process sender plan.tx_command (sender_log plan) none)
          lab.started
          set_sender)
        (λ _ s. IsSilent lab (silence_seconds numbers plan) s.history)
        QuietRun
  unfolding launched IsSilent
  launch-Triple =
      Triple-ask_then QuietRun (λ _ s. IsSilent lab (silence_seconds numbers plan) s.history)
        QuietRun (start_process sender plan.tx_command (sender_log plan) none) lab.started
        set_sender (λ s handle q e. ((λ started. cc), q.0))
        (λ s exc q e. (((λ started. cc), q.0), rw e refl))

  pause-Triple :
      Triple
        (λ s. IsSilent lab (silence_seconds numbers plan) s.history)
        (pause (silence_seconds numbers plan))
        (λ _. QuietRun)
        QuietRun
  unfolding pause launched IsSilent
  pause-Triple = record { after = λ s silent. (((λ started. refl), silent), refl) }

  wait-Keeps :
      (handle : ProcessHandle) (timeout : F)
      → Keeps QuietRun (ask_then (wait_process sender handle timeout) lab.status clear_sender)
  wait-Keeps handle timeout =
      Keeps-assign lab (silence_seconds numbers plan) (wait_process sender handle timeout)
        lab.status clear_sender refl (λ status s. refl)

  run_sender-Keeps : Keeps QuietRun (run_sender numbers lab plan)
  unfolding run_sender
  run_sender-Keeps = record {
    at = λ s q.
        let whole = Triple->>= launch-Triple (λ handle. Triple->>= pause-Triple (λ _.
          Triple-Keeps {P = QuietRun} {E = QuietRun} (λ s q. q)
            (Keeps->>= QuietRun _ _ (wait-Keeps handle (runtime plan).shutdown_timeout_seconds)
              (λ status. search keeps_rules)))) in
        either QuietRun _ (whole.after s q);
  }

  measure-Keeps : Keeps QuietRun (measure numbers lab plan)
  unfolding measure
  measure-Keeps =
      let stable = Quiet-IsStable lab (silence_seconds numbers plan) in
      search
        (
          keeps_rules, start_receiver-Keeps, snapshot_before-Keeps, run_sender-Keeps,
          snapshot_after-Keeps, stop_receiver-Keeps,
        )
        depth 20

module _ {F : Type 0} (numbers : Numbers F) (floats : Floats F) (percentiles : Percentiles)
    (lab : Lab F) where
  run_body-Keeps :
      (plan : Plan F)
      → Keeps (QuietRun numbers lab plan) (run_body numbers floats percentiles lab plan)
  unfolding run_body
  run_body-Keeps plan =
      let stable = Quiet-IsStable lab (silence_seconds numbers plan) in
      search (keeps_rules, measure-Keeps, conclude-Keeps) depth 20

  pub run_plan-Keeps :
      (plan : Plan F)
      → Keeps (QuietRun numbers lab plan) (run_plan numbers floats percentiles lab plan)
  run_plan-Keeps plan =
      Keeps-try_finally (QuietRun numbers lab plan) _ _ (run_body-Keeps plan)
        (cleanup-Keeps lab (silence_seconds numbers plan) plan)
