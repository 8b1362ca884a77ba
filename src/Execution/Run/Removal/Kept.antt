-- ===== src/Execution/Run/Removal/Kept.antt =====
-- `execute_run` (main.py) removes the artifacts of a run only after its metadata are written.
use net_latency_lab.Base.{
  String, Bool, true, false, Option, none, some, [], ◌∷◌, ◌≡◌, refl, sym, subst,
}
use net_latency_lab.Python.Error.{Result, ok, err}
use net_latency_lab.Python.Stateful.{◌>>=◌, ◌>>◌, proceed, ended-state, try_finally}
use net_latency_lab.Python.Stateful.Keeps.{Keeps, Keeps->>=, Keeps-swallow, keeps_rules}
use net_latency_lab.Process.Node.{ProcessHandle}
use net_latency_lab.Campaign.Schedule.{RunTuple}
use net_latency_lab.Pacing.Report.{Percentiles}
use net_latency_lab.Verdict.Qualification.{Floats}
use net_latency_lab.Execution.Lab.{
  Side, receiver, sender, Request, shutdown_process, History, Lab, Locals, no_locals, asked, assign,
  ask, ask_then, pause,
}
use net_latency_lab.Execution.Plan.{Plan, RunConfig, make_plan}
use net_latency_lab.Execution.Measure.{Numbers, start_receiver, run_sender, stop_receiver, measure}
use net_latency_lab.Execution.Stable.{
  Keeps-pause, snapshot_before-Keeps, snapshot_after-Keeps, check_workload-Keeps, make_plan-Keeps,
  conclude-Keeps,
}
use net_latency_lab.Execution.Run.{
  stop_if_active, remove_if, cleanup, run_body, run_plan, execute_run,
}
use net_latency_lab.Execution.Run.Removal.{
  removes, has_written, IsSafe, Tidy, Saved, Tidy-other, Saved-any, Tidy-IsStable,
}

module _ {F A : Type 0} (lab : Lab F) where
  assigned-Tidy :
      (change : A → Locals F → Locals F)
      → ((value : A) (s : Locals F) → Tidy lab s → Tidy lab (change value s))
      → (answer : Result A) (s : Locals F) → Tidy lab s
      → Tidy lab (assign change answer s)
  assigned-Tidy change same (ok value) s tidy = same value s tidy
  assigned-Tidy change same (err exc) s tidy = tidy

  -- A request other than a removal, and an assignment that leaves `cleanup_eligible` alone.
  Keeps-assign :
      (request : Request F) (answer : History F → Result A) (change : A → Locals F → Locals F)
      → removes request ≡ false
      → ((value : A) (s : Locals F) → Tidy lab s → Tidy lab (change value s))
      → Keeps (Tidy lab) (ask_then request answer change)
  unfolding ask_then
  Keeps-assign request answer change other same = record {
    at = λ s tidy.
        assigned-Tidy change same (answer (request ∷ s.history)) (asked request s)
          (Tidy-other lab request other s tidy);
  }

  Keeps-other :
      (request : Request F) (answer : History F → Result A)
      → removes request ≡ false
      → Keeps (Tidy lab) (ask request answer)
  unfolding ask
  Keeps-other request answer other = record { at = Tidy-other lab request other }

  Keeps-any :
      (request : Request F) (answer : History F → Result A) → Keeps (Saved lab) (ask request answer)
  unfolding ask
  Keeps-any request answer = record { at = Saved-any lab request }

module _ {F : Type 0} (lab : Lab F) (plan : Plan F) where
  pause-Keeps : (seconds : F) → Keeps (Tidy lab) (pause seconds)
  pause-Keeps = Keeps-pause lab (Tidy lab) (Tidy-IsStable lab)

  start_receiver-Keeps : Keeps (Tidy lab) (start_receiver lab plan)
  unfolding start_receiver
  start_receiver-Keeps = search (keeps_rules, Keeps-assign, Keeps-other, pause-Keeps) depth 20

  stop_receiver-Keeps : (handle : ProcessHandle) → Keeps (Tidy lab) (stop_receiver lab plan handle)
  unfolding stop_receiver
  stop_receiver-Keeps handle =
      search (keeps_rules, Keeps-assign, check_workload-Keeps, Tidy-IsStable) depth 20

  stop-Keeps :
      (P : Locals F → Type 0)
      → ((side : Side) (handle : ProcessHandle) (timeout : F)
          → Keeps P (ask (shutdown_process side handle timeout) lab.status))
      → (side : Side) (active : Option ProcessHandle)
      → Keeps P (stop_if_active lab plan side active)
  unfolding stop_if_active
  stop-Keeps P asks side none = search keeps_rules
  stop-Keeps P asks side (some handle) = search (keeps_rules, Keeps-swallow, asks)

  clause-Keeps :
      (P : Locals F → Type 0) (r l : Option ProcessHandle) (eligible : Bool)
      → ((side : Side) (handle : ProcessHandle) (timeout : F)
          → Keeps P (ask (shutdown_process side handle timeout) lab.status))
      → Keeps P (remove_if lab plan eligible)
      → Keeps P (
          stop_if_active lab plan sender l
          >> stop_if_active lab plan receiver r
          >> remove_if lab plan eligible)
  clause-Keeps P r l eligible asks removed =
      Keeps->>= P _ _
        (Keeps->>= P _ _ (stop-Keeps P asks sender l) (λ _. stop-Keeps P asks receiver r))
        (λ _. removed)

  remove_if-Saved : Keeps (Saved lab) (remove_if lab plan true)
  unfolding remove_if
  remove_if-Saved = search (keeps_rules, Keeps-any)

  remove_if-Tidy : Keeps (Tidy lab) (remove_if lab plan false)
  unfolding remove_if
  remove_if-Tidy = search keeps_rules

  clause-IsSafe :
      (r l : Option ProcessHandle) (s : Locals F) (eligible : Bool)
      → s.cleanup_eligible ≡ eligible
      → Tidy lab s
      → IsSafe lab
          ((stop_if_active lab plan sender l
              >> stop_if_active lab plan receiver r
              >> remove_if lab plan eligible)
            s).1.history
  clause-IsSafe r l s true e tidy =
      ((clause-Keeps (Saved lab) r l true (λ side handle timeout. Keeps-any lab _ _)
          remove_if-Saved).at
        s (tidy.0, tidy.1 e)).0
  clause-IsSafe r l s false e tidy =
      ((clause-Keeps (Tidy lab) r l false (λ side handle timeout. Keeps-other lab _ _ refl)
          remove_if-Tidy).at
        s tidy).0

  cleanup-IsSafe : (s : Locals F) → Tidy lab s → IsSafe lab (cleanup lab plan s).1.history
  unfolding cleanup
  cleanup-IsSafe s tidy =
      clause-IsSafe s.active_receiver s.active_sender s s.cleanup_eligible refl tidy

module _ {F : Type 0} (numbers : Numbers F) (lab : Lab F) (plan : Plan F) where
  run_sender-Keeps : Keeps (Tidy lab) (run_sender numbers lab plan)
  unfolding run_sender
  run_sender-Keeps = search (keeps_rules, Keeps-assign, pause-Keeps) depth 20

  measure-Keeps : Keeps (Tidy lab) (measure numbers lab plan)
  unfolding measure
  measure-Keeps =
      let stable = Tidy-IsStable lab in
      search
        (
          keeps_rules, start_receiver-Keeps, snapshot_before-Keeps, run_sender-Keeps,
          snapshot_after-Keeps, stop_receiver-Keeps,
        )
        depth 20

module _ {F : Type 0} (numbers : Numbers F) (floats : Floats F) (percentiles : Percentiles)
    (lab : Lab F) where
  run_body-Keeps : (plan : Plan F) → Keeps (Tidy lab) (run_body numbers floats percentiles lab plan)
  unfolding run_body
  run_body-Keeps plan =
      let stable = Tidy-IsStable lab in search (keeps_rules, measure-Keeps, conclude-Keeps) depth 20

  run_plan-IsSafe :
      (plan : Plan F) (s : Locals F)
      → Tidy lab s
      → IsSafe lab (run_plan numbers floats percentiles lab plan s).1.history
  unfolding try_finally
  run_plan-IsSafe plan s tidy =
      let after = run_body numbers floats percentiles lab plan s in
      subst (λ (l : Locals F). IsSafe lab l.history)
        (sym (ended-state after.0 (cleanup lab plan after.1)))
        (cleanup-IsSafe lab plan after.1 ((run_body-Keeps plan).at s tidy))

  proceed-IsSafe :
      (o : Result (Plan F) × Locals F)
      → Tidy lab o.1
      → IsSafe lab (proceed (run_plan numbers floats percentiles lab) o).1.history
  proceed-IsSafe (ok plan, s) tidy = run_plan-IsSafe plan s tidy
  proceed-IsSafe (err exc, s) tidy = tidy.0

  -- However a run ends, no file was removed from a node before the metadata of the run were written:
  -- each removal in the run's history of requests has a write of the metadata that returned before it.
  pub execute_run-IsSafe :
      (config : RunConfig F) (session_id : String) (item : RunTuple)
      → IsSafe lab (execute_run numbers floats percentiles lab config session_id item []).1
  unfolding execute_run ◌>>=◌ has_written IsSafe
  execute_run-IsSafe config session_id item =
      proceed-IsSafe (make_plan numbers.str_number lab config session_id item (no_locals [])) (
        (make_plan-Keeps numbers.str_number lab (Tidy lab) (Tidy-IsStable lab) config session_id
            item).at
          (no_locals []) (tt, λ e. cc))
