-- ===== src/Execution/Run/Reaped.antt =====
-- The processes that `execute_run` (main.py) starts: none is left behind, however the run ends.
pub mod Phases
pub mod Ended
use net_latency_lab.Base.{
  Bool, true, false, not, Option, some, List, [], ◌∷◌, ◌≡◌, refl, ◌⊎◌, filter, ◌==◌,
}
use net_latency_lab.Base.Int.{ℤ}
use net_latency_lab.Python.Error.{Result, ok, err}
use net_latency_lab.Process.Node.{ProcessHandle}
use net_latency_lab.Execution.Lab.{
  Side, receiver, sender, Request, make_run_dir, run, start_process, sleep, process_exists,
  run_state, snapshot_counters, wait_process, shutdown_process, fetch_file, require_nonempty_file,
  read_json, read_rows, write_text, write_metadata, remove_files, History, Lab, Locals, asked,
}
use net_latency_lab.Execution.Stable.{is_neutral, IsStable}

abbrev pub is_side : Side → Side → Bool
is_side receiver receiver = true
is_side receiver sender = false
is_side sender receiver = false
is_side sender sender = true

abbrev pub without : ProcessHandle → List ProcessHandle → List ProcessHandle
without handle handles = filter (λ (h : ProcessHandle). not (h.pid == handle.pid)) handles

abbrev pub with_started : Result ProcessHandle → List ProcessHandle → List ProcessHandle
with_started (ok handle) handles = handle ∷ handles
with_started (err exc) handles = handles

abbrev pub without_waited : ProcessHandle → Result ℤ → List ProcessHandle → List ProcessHandle
without_waited handle (ok status) handles = without handle handles
without_waited handle (err exc) handles = handles

abbrev pub when {ℓ} : {A : Type ℓ} → Bool → A → A → A
when true changed same = changed
when false changed same = same

module _ {F : Type 0} (lab : Lab F) where
  -- What a request does to the processes of a side: `h` ends in the request.
  abbrev pub after_request : Side → Request F → History F → List ProcessHandle → List ProcessHandle
  after_request side (start_process s command log index) h handles =
      when (is_side side s) (with_started (lab.started h) handles) handles
  after_request side (wait_process s handle timeout) h handles =
      when (is_side side s) (without_waited handle (lab.status h) handles) handles
  after_request side (shutdown_process s handle timeout) h handles =
      when (is_side side s) (without handle handles) handles
  after_request side other h handles = handles

  -- The processes of a side that were started, and neither waited for with a result nor handed to
  -- `shutdown_process`.
  unfoldable pub unreaped : Side → History F → List ProcessHandle
  unreaped side [] = []
  unreaped side (request ∷ h) = after_request side request (request ∷ h) (unreaped side h)

  after_request-neutral :
      (side : Side) (request : Request F) (h : History F) (handles : List ProcessHandle)
      → is_neutral request ≡ true
      → after_request side request h handles ≡ handles
  after_request-neutral side (make_run_dir path) h handles n = refl
  after_request-neutral side (run s command timeout) h handles n = refl
  after_request-neutral side (start_process s command log index) h handles n = cc
  after_request-neutral side (sleep seconds) h handles n = refl
  after_request-neutral side (process_exists s pid) h handles n = refl
  after_request-neutral side (run_state s interface) h handles n = refl
  after_request-neutral side (snapshot_counters s interface) h handles n = refl
  after_request-neutral side (wait_process s handle timeout) h handles n = cc
  after_request-neutral side (shutdown_process s handle timeout) h handles n = cc
  after_request-neutral side (fetch_file s remote local) h handles n = refl
  after_request-neutral side (require_nonempty_file path description) h handles n = refl
  after_request-neutral side (read_json path) h handles n = refl
  after_request-neutral side (read_rows path) h handles n = refl
  after_request-neutral side (write_text path) h handles n = refl
  after_request-neutral side (write_metadata path) h handles n = refl
  after_request-neutral side (remove_files s paths) h handles n = refl

  -- A predicate on what is unreaped and on the two handles that the locals hold.
  abbrev pub Standing :
      (List ProcessHandle
        → List ProcessHandle
        → Option ProcessHandle
        → Option ProcessHandle
        → Type 0)
      → Locals F
      → Type 0
  Standing Q s =
      Q (unreaped receiver s.history) (unreaped sender s.history) s.active_receiver s.active_sender

  unreaped-neutral :
      (side : Side) (request : Request F) (h : History F)
      → is_neutral request ≡ true
      → unreaped side (request ∷ h) ≡ unreaped side h
  unfolding unreaped
  unreaped-neutral side request h n =
      after_request-neutral side request (request ∷ h) (unreaped side h) n

  module _
      (Q : List ProcessHandle
        → List ProcessHandle
        → Option ProcessHandle
        → Option ProcessHandle
        → Type 0) where
    Standing-neutral :
        (request : Request F)
        → is_neutral request ≡ true
        → (s : Locals F) → Standing Q s
        → Standing Q (asked request s)
    Standing-neutral request n s q =
        rw
          (
            unreaped-neutral receiver request s.history n,
            unreaped-neutral sender request s.history n,
          )
          q

    pub Standing-IsStable : IsStable lab (Standing Q)
    Standing-IsStable = record {
      neutral = Standing-neutral;
      written = λ path s e q. Standing-neutral (write_metadata path) refl s q;
    }

-- Nothing is unreaped, or one process that the locals hold.
abbrev pub IsCovered : List ProcessHandle → Option ProcessHandle → Type 0
IsCovered handles active =
    (handles ≡ []) ⊎ ((h : ProcessHandle) × (handles ≡ h ∷ []) × (active ≡ some h))

abbrev pub Guarded :
    List ProcessHandle → List ProcessHandle → Option ProcessHandle → Option ProcessHandle → Type 0
Guarded rs ss r s = IsCovered rs r × IsCovered ss s

abbrev pub Idle :
    List ProcessHandle → List ProcessHandle → Option ProcessHandle → Option ProcessHandle → Type 0
Idle rs ss r s = (rs ≡ []) × (ss ≡ [])

-- The receiver runs, and the sender does not.
abbrev pub Serving :
    ProcessHandle
    → List ProcessHandle
    → List ProcessHandle
    → Option ProcessHandle
    → Option ProcessHandle
    → Type 0
Serving handle rs ss r s = (rs ≡ handle ∷ []) × (r ≡ some handle) × (ss ≡ [])

abbrev pub Sending :
    ProcessHandle
    → ProcessHandle
    → List ProcessHandle
    → List ProcessHandle
    → Option ProcessHandle
    → Option ProcessHandle
    → Type 0
Sending receiver_handle sender_handle rs ss r s =
    (rs ≡ receiver_handle ∷ [])
    × (r ≡ some receiver_handle)
    × (ss ≡ sender_handle ∷ [])
    × (s ≡ some sender_handle)
