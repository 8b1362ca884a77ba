-- ===== src/Process/Shutdown/Escalation.antt =====
-- The signals that `shutdown_process` sends (main.py): always a prefix of one ladder.
use net_latency_lab.Base.{
  ℕ, zero, suc, ◌≤◌, ◌≡◌, refl, ◌⊎◌, inl, inr, Option, none, List, [], ◌∷◌, map, length, take,
  arith, subst, ◌∙◌, ◌≢◌, ap, Option-cases,
}
use net_latency_lab.Base.Int.{ℤ}
use net_latency_lab.Python.Error.{Error, Result, ok, err}
use net_latency_lab.Process.Node.{
  ProcessHandle, Signal, sigint, sigterm, sigkill, Call, History, Node, ◌>>=◌,
}
use net_latency_lab.Process.Node.Trace.{Sent, to_process, to_wrapper, signals}
use net_latency_lab.Process.Shutdown.{
  escalation_timeout, Progress, returned, exhausted, stage, run_stages, stop_wrapper, after_stages,
  escalation_stages, shutdown_process,
}
use net_latency_lab.Process.Shutdown.Polling.{signals-wait_pid_exit}

-- The signals in the order in which they may be sent.
abbrev pub ladder : List Sent
ladder =
    to_process sigint
    ∷ to_process sigterm
    ∷ to_process sigkill
    ∷ to_wrapper sigterm
    ∷ to_wrapper sigkill
    ∷ []

-- `later`, oldest first, sent after `sent`, which is newest first.
abbrev pub sent_after : List Sent → List Sent → List Sent
sent_after [] sent = sent
sent_after (s ∷ later) sent = sent_after later (s ∷ sent)

-- How an action that may return, go on or raise has ended.
pub Outcome-cases :
    (r : Result Progress × History)
    → ((e : Error) × (h : History) × (r ≡ (err e, h)))
      ⊎ (((st : ℤ) × (h : History) × (r ≡ (ok (returned st), h)))
          ⊎ ((l : Option Error) × (h : History) × (r ≡ (ok (exhausted l), h))))
Outcome-cases (err e, h) = inl (e, h, refl)
Outcome-cases (ok (returned st), h) = inr (inl (st, h, refl))
Outcome-cases (ok (exhausted l), h) = inr (inr (l, h, refl))

pub take-ladder :
    (n : ℕ)
    → n ≤ 3
    → take n (to_process sigint ∷ to_process sigterm ∷ to_process sigkill ∷ []) ≡ take n ladder
take-ladder zero h = refl
take-ladder (suc zero) h = refl
take-ladder (suc (suc zero)) h = refl
take-ladder (suc (suc (suc zero))) h = refl
take-ladder (suc (suc (suc (suc n)))) h = absurd (omega arith)

module _ (node : Node) (handle : ProcessHandle) where
  pub signals-stage :
      (escalation wait_timeout : ℕ) (signum : Signal) (last_timeout : Option Error) (h : History)
      → signals (stage node handle escalation (signum, wait_timeout) last_timeout h).1
        ≡ to_process signum ∷ signals h
  unfolding stage ◌>>=◌
  signals-stage escalation wait_timeout signum last_timeout h = grind (arith, signals-wait_pid_exit)

  pub signals-stop_wrapper :
      (escalation : ℕ) (last_timeout : Option Error) (h : History)
      → let h' = (stop_wrapper node handle escalation (sigterm ∷ sigkill ∷ []) last_timeout h).1 in
        (signals h' ≡ to_wrapper sigterm ∷ signals h)
        ⊎ (signals h' ≡ to_wrapper sigkill ∷ to_wrapper sigterm ∷ signals h)
  unfolding stop_wrapper ◌>>=◌
  signals-stop_wrapper escalation last_timeout h = ground arith

  signals-after_stages :
      (escalation : ℕ) (last_timeout : Option Error) (h : History)
      → let h' = (after_stages node handle escalation last_timeout h).1 in
        (signals h' ≡ signals h)
        ⊎ ((handle.workload_pid ≢ none)
            × ((signals h' ≡ to_wrapper sigterm ∷ signals h)
                ⊎ (signals h' ≡ to_wrapper sigkill ∷ to_wrapper sigterm ∷ signals h)))
  unfolding after_stages ◌>>=◌
  signals-after_stages escalation last_timeout h = elim (Option-cases handle.workload_pid) [
    | inl untracked ↦ rw untracked (inl (ground arith))
    | inr (pid, tracked) ↦
        ground (
          arith,
          tracked,
          signals-stop_wrapper escalation last_timeout (Call.process_exists pid ∷ h),
        )
  ]

  pub signals-run_stages :
      (escalation : ℕ) (stages : List (Signal × ℕ)) (last_timeout : Option Error) (h : History)
      → let (r, h') = run_stages node handle escalation stages last_timeout h in
        (n : ℕ) × (n ≤ length stages)
        × (signals h' ≡ sent_after (take n (map (λ s. to_process s.0) stages)) (signals h))
        × ((l : Option Error) → r ≡ ok (exhausted l) → n ≡ length stages)
  unfolding run_stages ◌>>=◌
  signals-run_stages escalation [] last_timeout h = (0, omega arith, refl, λ l e. refl)
  signals-run_stages escalation (s ∷ stages) last_timeout h =
      let sent = signals-stage escalation s.1 s.0 last_timeout h in
      elim (Outcome-cases (stage node handle escalation s last_timeout h)) [
        | inl (e, h', raised) ↦ rw raised (1, omega arith, rw raised at sent, λ l x. cc)
        | inr (inl (st, h', done)) ↦ rw done (1, omega arith, rw done at sent, λ l x. cc)
        | inr (inr (l, h', more)) ↦
            let (n, le, sig, full) = signals-run_stages escalation stages l h' in
            let later = map (λ (s' : Signal × ℕ). to_process s'.0) stages in
            let sig' =
              subst
                (λ v.
                  signals (run_stages node handle escalation stages l h').1
                  ≡ sent_after (take n later) v)
                (rw more at sent) sig in
            rw more (suc n, omega arith, sig', λ k x. ap suc (full k x))
      ]

  -- Signals that end at `h'`, `n` steps up the ladder from those of `h`.
  abbrev pub Climbs : History → History → ℕ → Type 0
  Climbs h h' n = signals h' ≡ sent_after (take n ladder) (signals h)

  -- The outcome of a shutdown, by how far it has climbed.
  abbrev pub ClimbsLadder : History → History → Type 0
  ClimbsLadder h h' = (n : ℕ) × (n ≤ 5) × Climbs h h' n × ((n ≤ 3) ⊎ (handle.workload_pid ≢ none))

  -- After all three stages: the wrapper is left alone, or gets one or two more signals.
  climb_after :
      (escalation : ℕ) (l : Option Error) (h h' : History)
      → Climbs h h' 3
      → ClimbsLadder h (after_stages node handle escalation l h').1
  climb_after escalation l h h' c = elim (signals-after_stages escalation l h') [
    | inl same ↦ (3, omega arith, same ∙ c, inl (omega arith))
    | inr (tracked, inl one) ↦
        (4, omega arith, one ∙ ap (λ (v : List Sent). to_wrapper sigterm ∷ v) c, inr tracked)
    | inr (tracked, inr two) ↦ (
      5,
      omega arith,
      two ∙ ap (λ (v : List Sent). to_wrapper sigkill ∷ to_wrapper sigterm ∷ v) c,
      inr tracked,
    )
  ]

  -- Whatever the node answers, the signals sent are a prefix of the ladder: SIGINT, SIGTERM and
  -- SIGKILL to the process, then SIGTERM and SIGKILL to its wrapper, the last two only where a
  -- workload is tracked.
  pub shutdown_process_ladder :
      (timeout : ℕ) (h : History) → ClimbsLadder h (shutdown_process node handle timeout h).1
  unfolding shutdown_process ◌>>=◌
  shutdown_process_ladder timeout h =
      let escalation = escalation_timeout timeout in
      let stages = escalation_stages node handle timeout in
      let run = run_stages node handle escalation stages none h in
      let (n, le, sig, full) = signals-run_stages escalation stages none h in
      let climbed = sig ∙ ap (λ (s : List Sent). sent_after s (signals h)) (take-ladder n le) in
      elim (Outcome-cases run) [
        | inl (e, h', raised) ↦ rw raised (n, omega arith, rw raised at climbed, inl le)
        | inr (inl (st, h', done)) ↦ rw done (n, omega arith, rw done at climbed, inl le)
        | inr (inr (l, h', more)) ↦ rw more (
            climb_after escalation l h h' (
              subst (Climbs h h') (full l (ap (λ (r : Result Progress × History). r.0) more))
                (rw more at climbed)))
      ]
