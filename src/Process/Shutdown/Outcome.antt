-- ===== src/Process/Shutdown/Outcome.antt =====
-- What the result of `shutdown_process` (main.py) rests on: a status was reported by the last wait,
-- and a failure has tried everything that was allowed.
use net_latency_lab.Base.{
  ℕ, ◌≡◌, ◌⊎◌, inl, inr, Option, none, some, List, [], ◌∷◌, arith, ap, Option-cases, subst, false,
}
use net_latency_lab.Base.Int.{ℤ}
use net_latency_lab.Python.Error.{Error, Result, ok}
use net_latency_lab.Process.Node.{
  ProcessHandle, Signal, sigterm, sigkill, Call, History, Node, ◌>>=◌,
}
use net_latency_lab.Process.Node.Trace.{last_wait, last_exists}
use net_latency_lab.Process.Shutdown.{
  escalation_timeout, Progress, returned, stage, run_stages, stop_wrapper, after_stages,
  escalation_stages, shutdown_process,
}
use net_latency_lab.Process.Shutdown.Polling.{last_wait-wait_pid_exit, wait_pid_exit-true}
use net_latency_lab.Process.Shutdown.Escalation.{Outcome-cases}

module _ (node : Node) (handle : ProcessHandle) where
  -- The last wait reported `status`, and a tracked workload was not there when last looked for.
  pub record IsStopped (status : ℤ) (h : History) : Type 0 where
    pub reported : last_wait node h ≡ some (ok status)
    pub gone :
        (handle.workload_pid ≡ none)
        ⊎ ((pid : ℕ) × (handle.workload_pid ≡ some pid)
            × (last_exists node h ≡ some (pid, ok false)))

  stage-IsStopped :
      (escalation : ℕ) (s : Signal × ℕ) (last_timeout : Option Error) (h : History) (status : ℤ)
      → (stage node handle escalation s last_timeout h).0 ≡ ok (returned status)
      → IsStopped status (stage node handle escalation s last_timeout h).1
  unfolding stage ◌>>=◌
  stage-IsStopped escalation s last_timeout h status e = elim (Option-cases handle.workload_pid) [
    | inl untracked ↦ ground (arith, untracked)
    | inr (pid, tracked) ↦
        let h' = Call.wait_process handle s.1 ∷ Call.signal_process handle s.0 ∷ h in
        ground (
          arith,
          tracked,
          last_wait-wait_pid_exit node pid escalation h',
          wait_pid_exit-true node pid escalation h',
        )
  ]

  run_stages-IsStopped :
      (escalation : ℕ) (stages : List (Signal × ℕ)) (last_timeout : Option Error) (h : History)
      (status : ℤ)
      → (run_stages node handle escalation stages last_timeout h).0 ≡ ok (returned status)
      → IsStopped status (run_stages node handle escalation stages last_timeout h).1
  unfolding run_stages ◌>>=◌
  run_stages-IsStopped escalation [] last_timeout h status e = cc
  run_stages-IsStopped escalation (s ∷ stages) last_timeout h status e =
      elim (Outcome-cases (stage node handle escalation s last_timeout h)) [
        | inl (x, h', raised) ↦ cc (rw raised at e)
        | inr (inl (st, h', done)) ↦
            let same : st ≡ status = ground (arith, rw done at e) in
            rw (done, ← same)
              (subst (λ (r : Result Progress × History). IsStopped st r.1) done
                (stage-IsStopped escalation s last_timeout h st
                  (ap (λ (r : Result Progress × History). r.0) done)))
        | inr (inr (l, h', more)) ↦
            rw more (run_stages-IsStopped escalation stages l h' status (rw more at e))
      ]

  stop_wrapper_reported :
      (escalation : ℕ) (last_timeout : Option Error) (h : History) (status : ℤ)
      → let (r, h') = stop_wrapper node handle escalation (sigterm ∷ sigkill ∷ []) last_timeout h in
        r ≡ ok status
        → (last_wait node h' ≡ some (ok status)) × (last_exists node h' ≡ last_exists node h)
  unfolding stop_wrapper ◌>>=◌
  stop_wrapper_reported escalation last_timeout h status e = ground arith

  after_stages-IsStopped :
      (escalation : ℕ) (last_timeout : Option Error) (h : History) (status : ℤ)
      → (after_stages node handle escalation last_timeout h).0 ≡ ok status
      → IsStopped status (after_stages node handle escalation last_timeout h).1
  unfolding after_stages ◌>>=◌
  after_stages-IsStopped escalation last_timeout h status e =
      elim (Option-cases handle.workload_pid) [
        | inl untracked ↦ ground (arith, untracked)
        | inr (pid, tracked) ↦ ground (
          arith,
          tracked,
          stop_wrapper_reported escalation last_timeout (Call.process_exists pid ∷ h) status,
        )
      ]

  -- A returned status is the one that the last wait reported, and a tracked workload is known to
  -- be gone: the last existence probe was of its PID and found nothing.
  pub shutdown_process-IsStopped :
      (timeout : ℕ) (h : History) (status : ℤ)
      → (shutdown_process node handle timeout h).0 ≡ ok status
      → IsStopped status (shutdown_process node handle timeout h).1
  unfolding shutdown_process ◌>>=◌
  shutdown_process-IsStopped timeout h status e =
      let escalation = escalation_timeout timeout in
      let stages = escalation_stages node handle timeout in
      elim (Outcome-cases (run_stages node handle escalation stages none h)) [
        | inl (x, h', raised) ↦ cc (rw raised at e)
        | inr (inl (st, h', done)) ↦
            let same : st ≡ status = ground (arith, rw done at e) in
            rw (done, ← same)
              (subst (λ (r : Result Progress × History). IsStopped st r.1) done
                (run_stages-IsStopped escalation stages none h st
                  (ap (λ (r : Result Progress × History). r.0) done)))
        | inr (inr (l, h', more)) ↦
            rw more (after_stages-IsStopped escalation l h' status (rw more at e))
      ]
