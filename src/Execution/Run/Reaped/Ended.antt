-- ===== src/Execution/Run/Reaped/Ended.antt =====
-- No process that `execute_run` (main.py) starts is left behind.
use net_latency_lab.Base.{
  ℕ, String, Bool, true, false, Option, none, some, List, [], ◌≡◌, refl, sym, subst, ap, inl, inr,
}
use net_latency_lab.Python.Stateful.{give, swallow, ended-state, try_finally}
use net_latency_lab.Python.Stateful.Keeps.{Keeps, Triple-Keeps, Keeps->>=, keeps_rules}
use net_latency_lab.Python.Stateful.Triple.{Triple, either, Triple-weaken, Triple->>=, Triple-give}
use net_latency_lab.Process.Node.{ProcessHandle}
use net_latency_lab.Campaign.Schedule.{RunTuple}
use net_latency_lab.Pacing.Report.{Percentiles}
use net_latency_lab.Verdict.Qualification.{Floats}
use net_latency_lab.Execution.Lab.{
  Side, receiver, sender, remove_files, History, Lab, Locals, no_locals, ask,
}
use net_latency_lab.Execution.Plan.{Plan, RunConfig}
use net_latency_lab.Execution.Measure.{Numbers}
use net_latency_lab.Execution.Stable.{make_plan-Keeps, conclude-Keeps}
use net_latency_lab.Execution.Run.{
  stop_if_active, remove_if, cleanup, run_body, run_plan, execute_run,
}
use net_latency_lab.Execution.Run.Reaped.{
  unreaped, without, Standing, Standing-IsStable, IsCovered, Guarded, Idle,
}
use net_latency_lab.Execution.Run.Reaped.Phases.{Idle-Guarded, without_self, measure-Triple}

module _ {F : Type 0} (lab : Lab F) (plan : Plan F) where
  -- What the `finally` clause knows before and after it stops the sender.
  abbrev Before : Option ProcessHandle → Option ProcessHandle → Locals F → Type 0
  Before r s l =
      IsCovered (unreaped lab receiver l.history) r × IsCovered (unreaped lab sender l.history) s

  abbrev Between : Option ProcessHandle → Locals F → Type 0
  Between r l = IsCovered (unreaped lab receiver l.history) r × (unreaped lab sender l.history ≡ [])

  IsCovered-none : (handles : List ProcessHandle) → IsCovered handles none → handles ≡ []
  IsCovered-none handles (inl e) = e
  IsCovered-none handles (inr (h, e, held)) = cc

  abbrev pid_or : ℕ → Option ProcessHandle → ℕ
  pid_or pid none = pid
  pid_or pid (some handle) = handle.pid

  IsCovered-stopped :
      (handle : ProcessHandle) (handles : List ProcessHandle)
      → IsCovered handles (some handle)
      → without handle handles ≡ []
  IsCovered-stopped handle handles (inl e) = rw e refl
  IsCovered-stopped handle handles (inr (h, e, held)) =
      rw (e, ap (λ (o : Option ProcessHandle). pid_or handle.pid o) held) (without_self h)

  stop_sender-Triple :
      (r s : Option ProcessHandle)
      → Triple (Before r s) (stop_if_active lab plan sender s) (λ _. Between r) (Standing lab Idle)
  unfolding stop_if_active swallow ask unreaped give
  stop_sender-Triple r none = record { after = λ l b. (b.0, IsCovered-none _ b.1) }
  stop_sender-Triple r (some handle) = record {
    after = λ l b. (b.0, IsCovered-stopped handle _ b.1);
  }

  stop_receiver-Triple :
      (r : Option ProcessHandle)
      → Triple
          (Between r)
          (stop_if_active lab plan receiver r)
          (λ _. Standing lab Idle)
          (Standing lab Idle)
  unfolding stop_if_active swallow ask unreaped give
  stop_receiver-Triple none = record { after = λ l b. (IsCovered-none _ b.0, b.1) }
  stop_receiver-Triple (some handle) = record {
    after = λ l b. (IsCovered-stopped handle _ b.0, b.1);
  }

  remove-Keeps :
      (side : Side) (paths : List String)
      → Keeps (Standing lab Idle) (ask (remove_files side paths) lab.done)
  unfolding ask unreaped
  remove-Keeps side paths = record { at = λ s q. q }

  remove_if-Keeps : (eligible : Bool) → Keeps (Standing lab Idle) (remove_if lab plan eligible)
  unfolding remove_if
  remove_if-Keeps true = search (keeps_rules, remove-Keeps)
  remove_if-Keeps false = search keeps_rules

  cleanup-Idle : (s : Locals F) → Standing lab Guarded s → Standing lab Idle (cleanup lab plan s).1
  unfolding cleanup
  cleanup-Idle s guarded =
      let whole =
        Triple->>=
          (Triple->>= (stop_sender-Triple s.active_receiver s.active_sender)
            (λ _. stop_receiver-Triple s.active_receiver))
          (λ _. Triple-Keeps (λ s q. q) (remove_if-Keeps s.cleanup_eligible)) in
      either (Standing lab Idle) _ (whole.after s guarded)

module _ {F : Type 0} (numbers : Numbers F) (floats : Floats F) (percentiles : Percentiles)
    (lab : Lab F) where
  run_body-Triple :
      (plan : Plan F)
      → Triple
          (Standing lab Idle)
          (run_body numbers floats percentiles lab plan)
          (λ _. Standing lab Guarded)
          (Standing lab Guarded)
  unfolding run_body
  run_body-Triple plan = Triple->>= (measure-Triple numbers lab plan) (λ measured.
      Triple->>=
        (Triple-Keeps (Idle-Guarded lab plan) (
          conclude-Keeps numbers floats percentiles lab plan (Standing lab Idle)
            (Standing-IsStable lab Idle) measured))
        (λ metadata. Triple-weaken (λ s q. q) (λ _. Idle-Guarded lab plan) (Triple-give _)))

  run_plan-Idle :
      (plan : Plan F) → Keeps (Standing lab Idle) (run_plan numbers floats percentiles lab plan)
  unfolding try_finally
  run_plan-Idle plan = record {
    at = λ s q.
        let after = run_body numbers floats percentiles lab plan s in
        let guarded = either (Standing lab Guarded) after ((run_body-Triple plan).after s q) in
        subst (Standing lab Idle) (sym (ended-state after.0 (cleanup lab plan after.1)))
          (cleanup-Idle lab plan after.1 guarded);
  }

  -- However a run ends, every process that it started was waited for with a result or handed to
  -- `shutdown_process`, on each of the two nodes, provided that no earlier one was left.
  pub execute_run-Idle :
      (config : RunConfig F) (session_id : String) (item : RunTuple) (history : History F)
      → (unreaped lab receiver history ≡ []) × (unreaped lab sender history ≡ [])
      → let end = (execute_run numbers floats percentiles lab config session_id item history).1 in
        (unreaped lab receiver end ≡ []) × (unreaped lab sender end ≡ [])
  unfolding execute_run
  execute_run-Idle config session_id item history idle =
      let planned =
        make_plan-Keeps numbers.str_number lab (Standing lab Idle) (Standing-IsStable lab Idle)
          config session_id item in
      (Keeps->>= (Standing lab Idle) _ _ planned run_plan-Idle).at (no_locals history) idle
