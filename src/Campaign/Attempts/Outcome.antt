-- ===== src/Campaign/Attempts/Outcome.antt =====
-- What `execute_with_progress` (main.py) comes to, from what the run and the reconnection come to.
use mathlib.Core.Bool.{true≢false}
use net_latency_lab.Base.{◌≡◌, refl, sym, ◌∙◌, inl, inr, ◌↔◌, true, false, subst, arith, Bool-cases}
use net_latency_lab.Python.Error.{Error, Result, ok, err}
use net_latency_lab.Campaign.Schedule.{RunTuple}
use net_latency_lab.Campaign.Attempts.{
  is_transport, execute_with_progress, execute_with_progress_retry, outcome-cases,
}

-- The failures of the connection, which alone are retried.
pub data IsTransport : Error → Type 0 where
  connection : IsTransport Error.connection_error
  end_of_file : IsTransport Error.eof_error
  timeout : IsTransport Error.timeout_error
  expired : IsTransport Error.timeout_expired
  ssh : IsTransport Error.ssh_exception

transport-is_transport : (e : Error) → IsTransport e → is_transport e ≡ true
transport-is_transport _ connection = refl
transport-is_transport _ end_of_file = refl
transport-is_transport _ timeout = refl
transport-is_transport _ expired = refl
transport-is_transport _ ssh = refl

is_transport-IsTransport : (e : Error) → is_transport e ≡ true → IsTransport e
is_transport-IsTransport Error.connection_error h = connection
is_transport-IsTransport Error.eof_error h = end_of_file
is_transport-IsTransport Error.timeout_error h = timeout
is_transport-IsTransport Error.timeout_expired h = expired
is_transport-IsTransport Error.ssh_exception h = ssh
is_transport-IsTransport (Error.key_error m) h = cc
is_transport-IsTransport (Error.value_error m) h = cc
is_transport-IsTransport (Error.runtime_error m) h = cc
is_transport-IsTransport Error.type_error h = cc
is_transport-IsTransport Error.attribute_error h = cc
is_transport-IsTransport Error.index_error h = cc
is_transport-IsTransport Error.zero_division h = cc
is_transport-IsTransport Error.assertion_error h = cc
is_transport-IsTransport Error.stop_iteration h = cc
is_transport-IsTransport Error.os_error h = cc

other-is_transport : (e : Error) → ¬ IsTransport e → is_transport e ≡ false
other-is_transport e other = elim (Bool-cases (is_transport e)) [
  | inl retried ↦ absurd (other (is_transport-IsTransport e retried))
  | inr final ↦ final
]

module _ {W R : Type 0} (execute_run : RunTuple → W → Result R × W)
    (reconnect_nodes : W → Result (Unit {0}) × W) where
  -- What the attempts at an item may come to.
  pub data Attempted (item : RunTuple) (w : W) : Result R × W → Type 0 where
    -- whatever its verdict
    returned : (r : R) (w₁ : W) → execute_run item w ≡ (ok r, w₁) → Attempted item w (ok r, w₁)
    raised :
        (e : Error) (w₁ : W)
        → execute_run item w ≡ (err e, w₁)
        → ¬ IsTransport e
        → Attempted item w (err e, w₁)
    unconnected :
        (e e' : Error) (w₁ w₂ : W)
        → execute_run item w ≡ (err e, w₁)
        → IsTransport e
        → reconnect_nodes w₁ ≡ (err e', w₂)
        → Attempted item w (err e', w₂)
    repeated :
        (e : Error) (w₁ w₂ : W)
        → execute_run item w ≡ (err e, w₁)
        → IsTransport e
        → reconnect_nodes w₁ ≡ (ok tt, w₂)
        → Attempted item w (execute_run item w₂)

  abbrev attempts : RunTuple → W → Result R × W
  attempts = execute_with_progress execute_run reconnect_nodes

  lost :
      (item : RunTuple) (w w₁ w₂ : W) (e e' : Error)
      → execute_run item w ≡ (err e, w₁)
      → is_transport e ≡ true
      → reconnect_nodes w₁ ≡ (err e', w₂)
      → attempts item w ≡ (err e', w₂)
  unfolding execute_with_progress
  lost item w w₁ w₂ e e' failed transport broken = ground arith

  returned-same :
      (item : RunTuple) (w w₁ : W) (r : R)
      → execute_run item w ≡ (ok r, w₁)
      → attempts item w ≡ (ok r, w₁)
  unfolding execute_with_progress
  returned-same item w w₁ r done = ground (arith, done)

  raised-same :
      (item : RunTuple) (w w₁ : W) (e : Error)
      → execute_run item w ≡ (err e, w₁)
      → is_transport e ≡ false
      → attempts item w ≡ (err e, w₁)
  unfolding execute_with_progress
  raised-same item w w₁ e failed other = ground (arith, failed, other)

  Attempted-same :
      (item : RunTuple) (w : W) (o : Result R × W) → Attempted item w o → attempts item w ≡ o
  Attempted-same item w _ (returned r w₁ done) = returned-same item w w₁ r done
  Attempted-same item w _ (raised e w₁ failed other) =
      raised-same item w w₁ e failed (other-is_transport e other)
  Attempted-same item w _ (unconnected e e' w₁ w₂ failed transport broken) =
      lost item w w₁ w₂ e e' failed (transport-is_transport e transport) broken
  Attempted-same item w _ (repeated e w₁ w₂ failed transport connected) =
      execute_with_progress_retry execute_run reconnect_nodes item w w₁ w₂ e failed
        (transport-is_transport e transport) connected

  retried-Attempted :
      (item : RunTuple) (w w₁ : W) (e : Error)
      → execute_run item w ≡ (err e, w₁)
      → IsTransport e
      → (o : Result R × W) × Attempted item w o
  retried-Attempted item w w₁ e failed transport = elim (outcome-cases (reconnect_nodes w₁)) [
    | inl (u, w₂, connected) ↦ (execute_run item w₂, repeated e w₁ w₂ failed transport connected)
    | inr (e', w₂, broken) ↦ ((err e', w₂), unconnected e e' w₁ w₂ failed transport broken)
  ]

  some-Attempted : (item : RunTuple) (w : W) → (o : Result R × W) × Attempted item w o
  some-Attempted item w = elim (outcome-cases (execute_run item w)) [
    | inl (r, w₁, done) ↦ ((ok r, w₁), returned r w₁ done)
    | inr (e, w₁, failed) ↦ elim (Bool-cases (is_transport e)) [
      | inl retried ↦ retried-Attempted item w w₁ e failed (is_transport-IsTransport e retried)
      | inr other ↦
          let never : ¬ IsTransport e =
            λ t. absurd (true≢false (sym (transport-is_transport e t) ∙ other)) in
          ((err e, w₁), raised e w₁ failed never)
    ]
  ]

  -- The attempts at an item come to an outcome and a state of the nodes exactly when these are: what the run
  -- returned, whatever its verdict; the exception that it raised, where that is none of the five failures of
  -- the connection; the exception of the reconnection after such a failure; or whatever one more run comes
  -- to after a reconnection that returned, be it a failure of the connection again.
  pub execute_with_progress_iff :
      (item : RunTuple) (w : W) (o : Result R × W)
      → (execute_with_progress execute_run reconnect_nodes item w ≡ o) ↔ Attempted item w o
  execute_with_progress_iff item w o = (
    λ h.
        let (o', a) = some-Attempted item w in
        subst (Attempted item w) (sym (Attempted-same item w o' a) ∙ h) a,
    Attempted-same item w o,
  )
