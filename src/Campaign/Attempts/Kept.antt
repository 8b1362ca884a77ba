-- ===== src/Campaign/Attempts/Kept.antt =====
-- What a run and a reconnection keep of the nodes, `execute_with_progress` (main.py) keeps.
use net_latency_lab.Base.{ℕ, zero, suc, ◌+◌, ◌≡◌, refl, ◌⊎◌, inl, inr, Bool-cases, ◌==◌}
use net_latency_lab.Python.Error.{Error, Result, ok, err}
use net_latency_lab.Campaign.Schedule.{RunTuple}
use net_latency_lab.Campaign.Attempts.{
  is_transport, max_run_attempts, attempt_run, execute_with_progress,
}

pub Result-cases :
    {A : Type 0} (r : Result A) → ((a : A) × (r ≡ ok a)) ⊎ ((e : Error) × (r ≡ err e))
Result-cases (ok a) = inl (a, refl)
Result-cases (err e) = inr (e, refl)

module _ {W R : Type 0} (P : W → Type 0) (execute_run : RunTuple → W → Result R × W)
    (reconnect_nodes : W → Result (Unit {0}) × W)
    (runs : (item : RunTuple) (w : W) → P w → P (execute_run item w).1)
    (reconnects : (w : W) → P w → P (reconnect_nodes w).1) where
  attempt_run-kept :
      (left attempt : ℕ) (item : RunTuple) (w : W)
      → P w
      → P (attempt_run execute_run reconnect_nodes left attempt item w).1
  unfolding attempt_run
  attempt_run-kept zero attempt item w p = p
  attempt_run-kept (suc left) attempt item w p =
      let w₁ = (execute_run item w).1 in
      let w₂ = (reconnect_nodes w₁).1 in
      let p₁ = runs item w p in
      let p₂ = reconnects w₁ p₁ in
      elim (Result-cases (execute_run item w).0) [
        | inl (r, done) ↦ rw (attempt_run, done) p₁
        | inr (e, failed) ↦ elim (Bool-cases (is_transport e)) [
          | inr other ↦ rw (attempt_run, failed, other) p₁
          | inl transport ↦ elim (Bool-cases (attempt == max_run_attempts)) [
            | inl last ↦ rw (attempt_run, failed, transport, last) p₁
            | inr more ↦ elim (Result-cases (reconnect_nodes w₁).0) [
              | inl (u, connected) ↦
                  rw (attempt_run, failed, transport, more, connected)
                    (attempt_run-kept left (attempt + 1) item w₂ p₂)
              | inr (e', broken) ↦ rw (attempt_run, failed, transport, more, broken) p₂
            ]
          ]
        ]
      ]

  pub execute_with_progress-kept :
      (item : RunTuple) (w : W)
      → P w
      → P (execute_with_progress execute_run reconnect_nodes item w).1
  unfolding execute_with_progress
  execute_with_progress-kept item w p = attempt_run-kept max_run_attempts 1 item w p
