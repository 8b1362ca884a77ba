-- ===== src/Process/Shutdown/Termination.antt =====
-- The polling loop of `wait_pid_exit` (main.py) ends: its rounds are enough whenever the clock moves
-- on by what is slept.
use net_latency_lab.Base.{
  ℕ, zero, suc, ◌+◌, ◌*◌, ◌/◌, ◌≤◌, ltb, ◌≡◌, refl, ◌∙◌, ap, ◌⊎◌, Bool, true, false, ◌∷◌, arith,
  inl, inr, Bool-cases,
}
use net_latency_lab.Python.Error.{Error, Result, ok, err}
use net_latency_lab.Process.Node.{Call, History, Node, ◌>>=◌}
use net_latency_lab.Process.Shutdown.{poll_interval, poll_exit, wait_pid_exit}

-- What `time.monotonic` and `time.sleep` promise of the calls that the loop makes.
pub record ClockAdvances (node : Node) : Type 0 where
  pub steady :
      (h : History)
      → node.clock (Call.monotonic ∷ h) ≤ node.clock (Call.monotonic ∷ Call.monotonic ∷ h)
  pub slept :
      (t pid : ℕ) (h : History)
      → node.clock (Call.monotonic ∷ h) + t
        ≤ node.clock (Call.monotonic ∷ Call.sleep t ∷ Call.process_exists pid ∷ Call.monotonic ∷ h)

answer-cases : (r : Result Bool) → ((r ≡ ok true) ⊎ (r ≡ ok false)) ⊎ ((e : Error) × (r ≡ err e))
answer-cases (ok true) = inl (inl refl)
answer-cases (ok false) = inl (inr refl)
answer-cases (err e) = inr (e, refl)

module _ (node : Node) (advances : ClockAdvances node) where
  poll_exit_enough :
      (rounds more pid deadline : ℕ) (h : History)
      → rounds ≤ more
      → deadline ≤ node.clock (Call.monotonic ∷ h) + rounds * poll_interval
      → poll_exit node (suc more) pid deadline h ≡ poll_exit node (suc rounds) pid deadline h
  unfolding poll_exit ◌>>=◌
  poll_exit_enough zero more pid deadline h le late =
      let over : ltb (node.clock (Call.monotonic ∷ h)) deadline ≡ false = ground arith in rw over
  poll_exit_enough (suc rounds) zero pid deadline h le late = absurd (omega arith)
  poll_exit_enough (suc rounds) (suc more) pid deadline h le late =
      let polled = Call.process_exists pid ∷ Call.monotonic ∷ h in
      let ih = poll_exit_enough rounds more pid deadline (Call.sleep poll_interval ∷ polled) in
      let slept = advances.slept poll_interval pid h in
      elim (Bool-cases (ltb (node.clock (Call.monotonic ∷ h)) deadline)) [
        | inr over ↦ rw over
        | inl early ↦ elim (answer-cases (node.exists polled)) [
          | inl (inl there) ↦ rw (early, there) (ih (omega arith) (omega arith))
          | inl (inr gone) ↦ rw (early, gone)
          | inr (e, raised) ↦ rw (early, raised)
        ]
      ]

  -- Where the clock advances by what is slept, the loop of `wait_pid_exit` ends by its own test:
  -- any larger number of rounds gives the same answer after the same calls.
  pub wait_pid_exit_enough :
      (pid timeout more : ℕ) (h : History)
      → timeout / poll_interval + 1 ≤ more
      → let start = node.clock (Call.monotonic ∷ h) in
        poll_exit node (suc more) pid (start + timeout) (Call.monotonic ∷ h)
        ≡ wait_pid_exit node pid timeout h
  unfolding wait_pid_exit ◌>>=◌
  wait_pid_exit_enough pid timeout more h le =
      let start = node.clock (Call.monotonic ∷ h) in
      let steady = advances.steady h in
      let rounds = timeout / poll_interval + 1 in
      let same : suc rounds ≡ timeout / poll_interval + 2 = omega arith in
      let enough =
        poll_exit_enough rounds more pid (start + timeout) (Call.monotonic ∷ h) le (omega arith) in
      enough ∙ ap (λ (n : ℕ). poll_exit node n pid (start + timeout) (Call.monotonic ∷ h)) same
