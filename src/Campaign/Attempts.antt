-- ===== src/Campaign/Attempts.antt =====
-- The retry loop of `execute_with_progress` (main.py). A run and a reconnection are actions on the
-- state of the two nodes.
pub mod Kept
pub mod Outcome
use net_latency_lab.Base.{
  ℕ, zero, suc, ◌+◌, ◌≤◌, ◌≡◌, refl, ◌⊎◌, inl, inr, ap, Bool, true, false, ◌==◌, if◌then◌else◌,
  arith,
}
use net_latency_lab.Python.Error.{Error, Result, ok, err}
use net_latency_lab.Campaign.Schedule.{RunTuple}

-- `TRANSPORT_FAILURES`, with paramiko installed.
abbrev pub is_transport : Error → Bool
is_transport Error.connection_error = true
is_transport Error.eof_error = true
is_transport Error.timeout_error = true
is_transport Error.timeout_expired = true
is_transport Error.ssh_exception = true
is_transport _ = false

abbrev pub max_run_attempts : ℕ
max_run_attempts = 2

-- How an action that may raise has ended.
pub outcome-cases :
    {W R : Type 0} (o : Result R × W)
    → ((r : R) × (w : W) × (o ≡ (ok r, w))) ⊎ ((e : Error) × (w : W) × (o ≡ (err e, w)))
outcome-cases (ok r, w) = inl (r, w, refl)
outcome-cases (err e, w) = inr (e, w, refl)

module _ {W R : Type 0} (execute_run : RunTuple → W → Result R × W)
    (reconnect_nodes : W → Result (Unit {0}) × W) where
  -- `for attempt in range(attempt, MAX_RUN_ATTEMPTS + 1)`, with `left` attempts to come.
  pub attempt_run : ℕ → ℕ → RunTuple → W → Result R × W
  attempt_run zero attempt item w = (err (Error.runtime_error "run produced no result"), w)
  attempt_run (suc left) attempt item w =
      let (outcome, w₁) = execute_run item w in
      elim outcome [
        | ok result ↦ (ok result, w₁)
        | err exc ↦
            let (connected, w₂) = reconnect_nodes w₁ in
            let again : Result R × W = elim connected [
              | ok _ ↦ attempt_run left (attempt + 1) item w₂
              | err e ↦ (err e, w₂)
            ] in
            if is_transport exc
            then (if attempt == max_run_attempts then (err exc, w₁) else again)
            else (err exc, w₁)
      ]

  pub execute_with_progress : RunTuple → W → Result R × W
  unfolding attempt_run
  execute_with_progress = attempt_run max_run_attempts 1

  -- After a transport failure and a reconnection the run is made once more, and that is final.
  pub execute_with_progress_retry :
      (item : RunTuple) (w w₁ w₂ : W) (e : Error)
      → execute_run item w ≡ (err e, w₁)
      → is_transport e ≡ true
      → reconnect_nodes w₁ ≡ (ok tt, w₂)
      → execute_with_progress item w ≡ execute_run item w₂
  unfolding execute_with_progress
  execute_with_progress_retry item w w₁ w₂ e failed transport connected = ground arith

  -- A result is that of one of the executions.
  pub execute_with_progress_label :
      {L : Type 0} (label : R → L) (item : RunTuple) (expected : L)
      → ((v : W) (r : R) → (execute_run item v).0 ≡ ok r → label r ≡ expected)
      → (w : W) (r : R) → (execute_with_progress item w).0 ≡ ok r
      → label r ≡ expected
  unfolding execute_with_progress
  execute_with_progress_label label item expected labels w r e =
      let w₁ = (execute_run item w).1 in
      let w₂ = (reconnect_nodes w₁).1 in ground (arith, labels w r, labels w₂ r)

  -- Never more than two executions, where `count` counts them.
  pub execute_with_progress_count :
      (count : W → ℕ)
      → ((i : RunTuple) (v : W) → count (execute_run i v).1 ≡ suc (count v))
      → ((v : W) → count (reconnect_nodes v).1 ≡ count v)
      → (item : RunTuple) (w : W)
      → (count w + 1 ≤ count (execute_with_progress item w).1)
        × (count (execute_with_progress item w).1 ≤ count w + 2)
  unfolding execute_with_progress
  execute_with_progress_count count counts keeps item w =
      let (first, w₁) = execute_run item w in
      let (connected, w₂) = reconnect_nodes w₁ in
      ground (arith, counts item w, keeps w₁, counts item w₂)
