-- ===== src/Process/Shutdown/Polling.antt =====
-- What `wait_pid_exit` (main.py) leaves alone, and what its answer rests on.
use net_latency_lab.Base.{
  ℕ, zero, suc, ◌+◌, ◌/◌, ltb, ◌≡◌, refl, true, false, not, some, ◌∷◌, arith,
}
use net_latency_lab.Python.Error.{ok}
use net_latency_lab.Process.Node.{Call, History, Node, pure, ◌>>=◌, ◌>>◌}
use net_latency_lab.Process.Node.Preserves.{
  Preserves, Preserves-bind, Preserves-if, Preserves-pure, Preserves-perform, preserves_rules,
}
use net_latency_lab.Process.Node.Trace.{signals, last_wait, last_exists}
use net_latency_lab.Process.Shutdown.{
  process_exists, sleep, monotonic, poll_interval, poll_exit, wait_pid_exit,
}

module _ {X : Type 0} (node : Node) (observe : History → X) where
  -- An observation that probes, sleeps and clock readings leave alone.
  poll_exit-Preserves :
      ((pid : ℕ) (h : History) → observe (Call.process_exists pid ∷ h) ≡ observe h)
      → ((t : ℕ) (h : History) → observe (Call.sleep t ∷ h) ≡ observe h)
      → ((h : History) → observe (Call.monotonic ∷ h) ≡ observe h)
      → (rounds pid deadline : ℕ) → Preserves observe (poll_exit node rounds pid deadline)
  unfolding poll_exit
  poll_exit-Preserves e s m zero pid deadline = search preserves_rules
  poll_exit-Preserves e s m (suc rounds) pid deadline =
      let again = sleep node poll_interval >> poll_exit node rounds pid deadline in
      let last = process_exists node pid >>= (λ alive. pure (not alive)) in
      let ih = poll_exit-Preserves e s m rounds pid deadline in
      Preserves-bind (monotonic node) _ (search preserves_rules) λ now.
        Preserves-if (ltb now deadline) _ last
          (Preserves-bind (process_exists node pid) _ (Preserves-perform _ _ (e pid)) (λ alive.
            Preserves-if alive again (pure true)
              (Preserves-bind (sleep node poll_interval) _ (Preserves-perform _ _ (s _)) (λ _. ih))
              (Preserves-pure true)))
          (search preserves_rules)

  wait_pid_exit-Preserves :
      ((pid : ℕ) (h : History) → observe (Call.process_exists pid ∷ h) ≡ observe h)
      → ((t : ℕ) (h : History) → observe (Call.sleep t ∷ h) ≡ observe h)
      → ((h : History) → observe (Call.monotonic ∷ h) ≡ observe h)
      → (pid timeout : ℕ) → Preserves observe (wait_pid_exit node pid timeout)
  unfolding wait_pid_exit
  wait_pid_exit-Preserves e s m pid timeout =
      Preserves-bind (monotonic node) _ (search preserves_rules)
        (λ start. poll_exit-Preserves e s m (timeout / poll_interval + 2) pid (start + timeout))

module _ (node : Node) where
  pub signals-wait_pid_exit :
      (pid timeout : ℕ) (h : History) → signals (wait_pid_exit node pid timeout h).1 ≡ signals h
  signals-wait_pid_exit pid timeout =
      (wait_pid_exit-Preserves node signals (λ p h. refl) (λ t h. refl) (λ h. refl) pid timeout).at

  pub last_wait-wait_pid_exit :
      (pid timeout : ℕ) (h : History)
      → last_wait node (wait_pid_exit node pid timeout h).1 ≡ last_wait node h
  last_wait-wait_pid_exit pid timeout =
      (wait_pid_exit-Preserves node (last_wait node) (λ p h. refl) (λ t h. refl) (λ h. refl) pid
        timeout).at

  poll_exit-true :
      (rounds pid deadline : ℕ) (h : History)
      → (poll_exit node rounds pid deadline h).0 ≡ ok true
      → last_exists node (poll_exit node rounds pid deadline h).1 ≡ some (pid, ok false)
  unfolding poll_exit ◌>>=◌
  poll_exit-true zero pid deadline h e = ground arith
  poll_exit-true (suc rounds) pid deadline h e =
      let polled = Call.process_exists pid ∷ Call.monotonic ∷ h in
      ground (arith, poll_exit-true rounds pid deadline (Call.sleep poll_interval ∷ polled))

  -- `True` is only returned after a probe that found no such process.
  pub wait_pid_exit-true :
      (pid timeout : ℕ) (h : History)
      → (wait_pid_exit node pid timeout h).0 ≡ ok true
      → last_exists node (wait_pid_exit node pid timeout h).1 ≡ some (pid, ok false)
  unfolding wait_pid_exit ◌>>=◌
  wait_pid_exit-true pid timeout h =
      poll_exit-true (timeout / poll_interval + 2) pid (node.clock (Call.monotonic ∷ h) + timeout)
        (Call.monotonic ∷ h)
