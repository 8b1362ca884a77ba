-- ===== src/Process/Launch/Fuel.antt =====
-- The rounds that the loop of `wait_for_local_pid_file` (main.py) is given are enough.
use net_latency_lab.Base.{
  ℕ, zero, suc, ◌+◌, ◌*◌, ◌/◌, ◌≤◌, String, Bool, true, false, Option, none, some, ◌∷◌, ◌≡◌, refl,
  sym, inl, inr, Option-cases, ltb, arith,
}
use net_latency_lab.Python.Error.{Result, ok, err}
use net_latency_lab.Python.Stateful.{give, proceed, ◌>>=◌}
use net_latency_lab.Process.Launch.{
  Request, History, System, Launch, ask, published, pid_interval, read_clock, read_pid, check_child,
  sleep_for, found_or, before_deadline, poll_pid_file, wait_for_local_pid_file,
}

-- The clock never runs back, and a sleep lasts for the time that was asked.
pub record IsTimed (system : System) : Type 0 where
  pub advances : (request : Request) (h : History) → system.clock h ≤ system.clock (request ∷ h)
  pub sleeps : (t : ℕ) (h : History) → system.clock h + t ≤ system.clock (Request.sleep t ∷ h)

module _ (system : System) where
  found_or-agree :
      (found : Option ℕ) (a b : Launch ℕ) (h : History)
      → a (Request.sleep pid_interval ∷ Request.poll_child ∷ h)
        ≡ b (Request.sleep pid_interval ∷ Request.poll_child ∷ h)
      → found_or system found a h ≡ found_or system found b h
  unfolding ◌>>=◌ give check_child sleep_for ask
  found_or-agree (some pid) a b h same = refl
  found_or-agree none a b h same = elim (Option-cases (system.status (Request.poll_child ∷ h))) [
    | inl e ↦ rw e same
    | inr (status, e) ↦ rw e refl
  ]

  proceed-agree :
      (answer : Result (Option ℕ)) (a b : Launch ℕ) (h : History)
      → a (Request.sleep pid_interval ∷ Request.poll_child ∷ h)
        ≡ b (Request.sleep pid_interval ∷ Request.poll_child ∷ h)
      → proceed (λ found. found_or system found a) (answer, h)
        ≡ proceed (λ found. found_or system found b) (answer, h)
  proceed-agree (ok found) a b h same = found_or-agree found a b h same
  proceed-agree (err exc) a b h same = refl

  before_deadline-agree :
      (early : Bool) (path : String) (a b : Launch ℕ) (h : History)
      → a (Request.sleep pid_interval ∷ Request.poll_child ∷ Request.read_text path ∷ h)
        ≡ b (Request.sleep pid_interval ∷ Request.poll_child ∷ Request.read_text path ∷ h)
      → before_deadline system early path a h ≡ before_deadline system early path b h
  unfolding ◌>>=◌ read_pid ask
  before_deadline-agree false path a b h same = refl
  before_deadline-agree true path a b h same =
      proceed-agree (published (system.text (Request.read_text path ∷ h))) a b
        (Request.read_text path ∷ h) same

  module _ (timed : IsTimed system) where
    after_round :
        (rounds deadline : ℕ) (path : String) (h : History)
        → deadline ≤ system.clock h + suc rounds * pid_interval
        → deadline
          ≤ system.clock (
              Request.sleep pid_interval
              ∷ Request.poll_child
              ∷ Request.read_text path
              ∷ Request.monotonic
              ∷ h)
            + rounds * pid_interval
    after_round rounds deadline path h near =
        let read = timed.advances Request.monotonic h in
        let text = timed.advances (Request.read_text path) (Request.monotonic ∷ h) in
        let status =
          timed.advances Request.poll_child (Request.read_text path ∷ Request.monotonic ∷ h) in
        let slept =
          timed.sleeps pid_interval
            (Request.poll_child ∷ Request.read_text path ∷ Request.monotonic ∷ h) in
        omega arith

    poll_pid_file-enough :
        (rounds more : ℕ) (path : String) (deadline : ℕ) (h : History)
        → rounds ≤ more
        → deadline ≤ system.clock h + rounds * pid_interval
        → poll_pid_file system more path deadline h ≡ poll_pid_file system rounds path deadline h
    unfolding poll_pid_file ◌>>=◌ read_clock ask
    poll_pid_file-enough zero zero path deadline h fewer near = refl
    poll_pid_file-enough zero (suc more) path deadline h fewer near =
        let read = timed.advances Request.monotonic h in
        let late : ltb (system.clock (Request.monotonic ∷ h)) deadline ≡ false = ground arith in
        rw late refl
    poll_pid_file-enough (suc rounds) zero path deadline h fewer near = ground arith
    poll_pid_file-enough (suc rounds) (suc more) path deadline h fewer near =
        before_deadline-agree (ltb (system.clock (Request.monotonic ∷ h)) deadline) path _ _
          (Request.monotonic ∷ h)
          (poll_pid_file-enough rounds more path deadline
            (Request.sleep pid_interval
              ∷ Request.poll_child
              ∷ Request.read_text path
              ∷ Request.monotonic
              ∷ h)
            (omega arith) (after_round rounds deadline path h near))

    -- On a system whose clock never runs back and whose sleeps last for the time that was asked, the loop of
    -- `wait_for_local_pid_file` ends within the rounds that it has: a larger number of rounds gives
    -- the same result, from the same requests in the same order.
    pub wait_for_local_pid_file-poll_pid_file :
        (path : String) (timeout more : ℕ) (h : History)
        → timeout / pid_interval + 1 ≤ more
        → wait_for_local_pid_file system path timeout h
          ≡ (read_clock system >>= λ start. poll_pid_file system more path (start + timeout)) h
    unfolding wait_for_local_pid_file ◌>>=◌ read_clock ask
    wait_for_local_pid_file-poll_pid_file path timeout more h enough =
        let start = system.clock (Request.monotonic ∷ h) in
        let near : start + timeout ≤ start + (timeout / pid_interval + 1) * pid_interval =
          omega arith in
        sym (
          poll_pid_file-enough (timeout / pid_interval + 1) more path (start + timeout)
            (Request.monotonic ∷ h) enough near)
