-- ===== src/Execution/Run/Reaped/Phases.antt =====
-- The processes of the phases of `execute_run` (main.py): where they run, and what the locals hold.
use net_latency_lab.Base.{Option, none, [], ◌∷◌, ◌≡◌, refl, inl, inr, ==_iff}
use net_latency_lab.Base.Int.{ℤ}
use net_latency_lab.Python.Stateful.Keeps.{Triple-Keeps}
use net_latency_lab.Python.Stateful.Triple.{Triple, Triple-lift, Triple->>=, Triple-give}
use net_latency_lab.Process.Node.{ProcessHandle, shutdown_target_pid}
use net_latency_lab.Execution.Lab.{
  receiver, sender, start_process, wait_process, shutdown_process, process_exists, Lab, Locals,
  ask_then,
}
use net_latency_lab.Execution.Stable.{
  Triple-ask_then, Keeps-ask, Keeps-pause, check_workload-Keeps, snapshot_before-Keeps,
  snapshot_after-Keeps,
}
use net_latency_lab.Execution.Plan.{Plan, receiver_log, sender_log, workload_index_of}
use net_latency_lab.Execution.Measure.{
  set_receiver, set_sender, clear_receiver, clear_sender, runtime, start_receiver, Numbers,
  silence_seconds, run_sender, stop_receiver, measure,
}
use net_latency_lab.Execution.Run.Reaped.{
  unreaped, without, Standing, Standing-IsStable, Guarded, Idle, Serving, Sending,
}

pub without_self : (handle : ProcessHandle) → without handle (handle ∷ []) ≡ []
without_self handle = rw ((==_iff handle.pid handle.pid).1 refl) refl

module _ {F : Type 0} (lab : Lab F) (plan : Plan F) where
  start-Triple :
      (index : Option ℤ)
      → Triple
          (Standing lab Idle)
          (ask_then
            (start_process receiver plan.rx_command (receiver_log plan) index)
            lab.started
            set_receiver)
          (λ handle. Standing lab (Serving handle))
          (Standing lab Guarded)
  unfolding unreaped
  start-Triple index =
      Triple-ask_then (Standing lab Idle) (λ handle. Standing lab (Serving handle))
        (Standing lab Guarded) (start_process receiver plan.rx_command (receiver_log plan) index)
        lab.started set_receiver (λ s handle q e. rw (e, q.0) (refl, refl, q.1))
        (λ s exc q e. rw e (inl q.0, inl q.1))

  pub Serving-Guarded :
      (handle : ProcessHandle) (s : Locals F)
      → Standing lab (Serving handle) s
      → Standing lab Guarded s
  Serving-Guarded handle s (er, a, es) = (inr (handle, er, a), inl es)

  pub Sending-Guarded :
      (rh sh : ProcessHandle) (s : Locals F)
      → Standing lab (Sending rh sh) s
      → Standing lab Guarded s
  Sending-Guarded rh sh s (er, a, es, b) = (inr (rh, er, a), inr (sh, es, b))

  pub Idle-Guarded : (s : Locals F) → Standing lab Idle s → Standing lab Guarded s
  Idle-Guarded s (er, es) = (inl er, inl es)

  start_receiver-Triple :
      Triple
        (Standing lab Idle)
        (start_receiver lab plan)
        (λ handle. Standing lab (Serving handle))
        (Standing lab Guarded)
  unfolding start_receiver
  start_receiver-Triple =
      Triple->>=
        (Triple-lift (workload_index_of plan.benchmark.profile plan.rx_command) Idle-Guarded)
        (λ index. Triple->>= (start-Triple index) (λ handle.
          Triple->>=
            (Triple-Keeps (Serving-Guarded handle) (
              Keeps-pause lab (Standing lab (Serving handle))
                (Standing-IsStable lab (Serving handle)) (runtime plan).receiver_startup_seconds))
            (λ _.
              Triple->>=
                (Triple-Keeps (Serving-Guarded handle) (
                  Keeps-ask lab (Standing lab (Serving handle))
                    (Standing-IsStable lab (Serving handle))
                    (process_exists receiver (shutdown_target_pid handle)) lab.exists refl))
                (λ exists.
                  Triple->>= (Triple-lift _ (Serving-Guarded handle)) (λ _. Triple-give handle)))))

  send-Triple :
      (rh : ProcessHandle)
      → Triple
          (Standing lab (Serving rh))
          (ask_then
            (start_process sender plan.tx_command (sender_log plan) none)
            lab.started
            set_sender)
          (λ sh. Standing lab (Sending rh sh))
          (Standing lab Guarded)
  unfolding unreaped
  send-Triple rh =
      Triple-ask_then (Standing lab (Serving rh)) (λ sh. Standing lab (Sending rh sh))
        (Standing lab Guarded) (start_process sender plan.tx_command (sender_log plan) none)
        lab.started set_sender (λ s handle q e. rw (e, q.2) (q.0, q.1, refl, refl))
        (λ s exc q e. rw e (inr (rh, q.0, q.1), inl q.2))

  wait-Triple :
      (rh sh : ProcessHandle) (timeout : F)
      → Triple
          (Standing lab (Sending rh sh))
          (ask_then (wait_process sender sh timeout) lab.status clear_sender)
          (λ status. Standing lab (Serving rh))
          (Standing lab Guarded)
  unfolding unreaped
  wait-Triple rh sh timeout =
      Triple-ask_then (Standing lab (Sending rh sh)) (λ status. Standing lab (Serving rh))
        (Standing lab Guarded) (wait_process sender sh timeout) lab.status clear_sender
        (λ s status q e. (q.0, q.1, rw (e, q.2) (without_self sh)))
        (λ s exc q e. rw e (inr (rh, q.0, q.1), inr (sh, q.2, q.3)))

  stop-Triple :
      (handle : ProcessHandle) (timeout : F)
      → Triple
          (Standing lab (Serving handle))
          (ask_then (shutdown_process receiver handle timeout) lab.status clear_receiver)
          (λ status. Standing lab Idle)
          (Standing lab Guarded)
  unfolding unreaped
  stop-Triple handle timeout =
      Triple-ask_then (Standing lab (Serving handle)) (λ status. Standing lab Idle)
        (Standing lab Guarded) (shutdown_process receiver handle timeout) lab.status clear_receiver
        (λ s status q e. (rw q.0 (without_self handle), q.2))
        (λ s exc q e. (inl (rw q.0 (without_self handle)), inl q.2))

module _ {F : Type 0} (numbers : Numbers F) (lab : Lab F) (plan : Plan F) where
  pub run_sender-Triple :
      (rh : ProcessHandle)
      → Triple
          (Standing lab (Serving rh))
          (run_sender numbers lab plan)
          (λ _. Standing lab (Serving rh))
          (Standing lab Guarded)
  unfolding run_sender
  run_sender-Triple rh = Triple->>= (send-Triple lab plan rh) (λ sh.
      Triple->>=
        (Triple-Keeps (Sending-Guarded lab plan rh sh) (
          Keeps-pause lab (Standing lab (Sending rh sh)) (Standing-IsStable lab (Sending rh sh))
            (silence_seconds numbers plan)))
        (λ _.
          Triple->>= (wait-Triple lab plan rh sh (runtime plan).shutdown_timeout_seconds) (λ status.
            Triple->>= (Triple-lift _ (Serving-Guarded lab plan rh)) (λ _. Triple-give sh))))

  stop_receiver-Triple :
      (handle : ProcessHandle)
      → Triple
          (Standing lab (Serving handle))
          (stop_receiver lab plan handle)
          (λ _. Standing lab Idle)
          (Standing lab Guarded)
  unfolding stop_receiver
  stop_receiver-Triple handle =
      Triple->>= (stop-Triple lab plan handle (runtime plan).shutdown_timeout_seconds) (λ status.
        Triple->>= (Triple-lift _ (Idle-Guarded lab plan)) (λ _.
          Triple-Keeps (Idle-Guarded lab plan) (
            check_workload-Keeps lab plan (Standing lab Idle) (Standing-IsStable lab Idle)
              handle.workload_pid)))

  pub measure-Triple :
      Triple
        (Standing lab Idle)
        (measure numbers lab plan)
        (λ _. Standing lab Idle)
        (Standing lab Guarded)
  unfolding measure
  measure-Triple = Triple->>= (start_receiver-Triple lab plan) (λ rh.
      Triple->>=
        (Triple-Keeps (Serving-Guarded lab plan rh) (
          snapshot_before-Keeps lab plan (Standing lab (Serving rh))
            (Standing-IsStable lab (Serving rh))))
        (λ before. Triple->>= (run_sender-Triple rh) (λ sh.
          Triple->>=
            (Triple-Keeps (Serving-Guarded lab plan rh) (
              snapshot_after-Keeps lab plan (Standing lab (Serving rh))
                (Standing-IsStable lab (Serving rh))))
            (λ after. Triple->>= (stop_receiver-Triple rh) (λ _. Triple-give _)))))
