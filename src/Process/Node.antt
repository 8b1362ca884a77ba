-- ===== src/Process/Node.antt =====
-- `ProcessHandle`, and the calls that the orchestrator makes of a `NodeController` (main.py).
-- What a node answers may depend on everything asked of it before, so a node is a function of the
-- history of calls, and a method is an action that reads and extends the history.
pub mod Trace
pub mod Preserves
use net_latency_lab.Base.{ℕ, String, Bool, Option, none, some, List, ◌∷◌}
use net_latency_lab.Base.Int.{ℤ}
use net_latency_lab.Python.Error.{Error, Result, ok, err}

pub record ProcessHandle : Type 0 where
  pub pid : ℕ
  pub command : List String
  pub log_path : String
  pub monitor_pid : Option ℕ
  pub workload_pid : Option ℕ

unfoldable pub wrapper_pid : ProcessHandle → ℕ
wrapper_pid handle = handle.pid

unfoldable pub shutdown_target_pid : ProcessHandle → ℕ
shutdown_target_pid handle = elim handle.workload_pid [ some pid ↦ pid | none ↦ handle.pid ]

pub data Signal : Type 0 where
  sigint sigterm sigkill : Signal

-- Times and timeouts are in nanoseconds.
pub data Call : Type 0 where
  signal_process signal_wrapper : ProcessHandle → Signal → Call
  wait_process : ProcessHandle → ℕ → Call
  process_exists : ℕ → Call
  -- `time.sleep` and `time.monotonic`
  sleep : ℕ → Call
  monotonic : Call

-- Newest call first.
abbrev pub History : Type 0
History = List Call

-- The answer to the newest call of a history.
pub record Node : Type 0 where
  pub signalled : History → Result (Unit {0})
  pub waited : History → Result ℤ
  pub exists : History → Result Bool
  pub clock : History → ℕ

abbrev pub Action : Type 0 → Type 0
Action A = History → Result A × History

module _ {A : Type 0} where
  pub pure : A → Action A
  pure a h = (ok a, h)

  pub raise : Error → Action A
  raise e h = (err e, h)

  -- Makes a call, and returns what the node answers to the history that ends in it.
  pub perform : Call → (History → Result A) → Action A
  perform call answer h = (answer (call ∷ h), call ∷ h)

  -- `except subprocess.TimeoutExpired as exc: …`
  abbrev pub except_timeout : Result A → (Error → A) → Result A
  except_timeout (ok a) handler = ok a
  except_timeout (err Error.timeout_expired) handler = ok (handler Error.timeout_expired)
  except_timeout (err e) handler = err e

  pub on_timeout : Action A → (Error → A) → Action A
  on_timeout m handler h = let (r, h') = m h in (except_timeout r handler, h')

module _ {A B : Type 0} where
  abbrev pub continue : Result A → (A → Action B) → Action B
  continue (ok a) f h = f a h
  continue (err e) f h = (err e, h)

  infixl 5 ◌>>=◌ ◌>>◌
  -- Opening this opens the other ways to build an action.
  unfoldable pub ◌>>=◌ : Action A → (A → Action B) → Action B
  unfolding pure raise perform on_timeout
  ◌>>=◌ m f h = let (r, h') = m h in continue r f h'

  abbrev pub ◌>>◌ : Action A → Action B → Action B
  m >> k = m >>= λ _. k
