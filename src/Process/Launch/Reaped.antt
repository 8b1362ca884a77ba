-- ===== src/Process/Launch/Reaped.antt =====
-- What `LocalNode.start_process` (main.py) leaves behind when it raises.
use net_latency_lab.Base.{
  ℕ, zero, suc, ◌+◌, String, Bool, true, false, ◌∙◌, ap, Option, none, some, List, ◌∷◌, [], ◌≡◌,
  refl, ltb, ◌==◌, if◌then◌else◌, arith,
}
use net_latency_lab.Base.Int.{ℤ}
use net_latency_lab.Python.Error.{Error, Result, ok, err}
use net_latency_lab.Python.Stateful.{ended, give}
use net_latency_lab.Python.Stateful.Keeps.{Keeps, Keeps-give, Keeps-lift, Keeps->>=, Triple-Keeps}
use net_latency_lab.Python.Stateful.Triple.{After, Triple, Triple->>=, Triple-give, Triple-lift}
use net_latency_lab.Process.Node.{ProcessHandle}
use net_latency_lab.Process.Workload.{instrument_workload}
use net_latency_lab.Process.Launch.{
  Request, History, System, Launch, ask, found_or, before_deadline, pid_interval, check_child,
  sleep_for, read_pid, read_clock, poll_pid_file, perform, terminate, reap, reraise,
  published_or_reaped, wait_for_local_pid_file, workload_pid_path, unlink_stale, spawn_child,
  tracked, start_process,
}

-- The children so far, without the PID of a group that is signalled.
abbrev without : ℕ → List ℕ → List ℕ
without pid [] = []
without pid (child ∷ children) =
    let rest = without pid children in if child == pid then rest else child ∷ rest

abbrev with_child : Result ℕ → List ℕ → List ℕ
with_child (ok pid) children = pid ∷ children
with_child (err exc) children = children

-- The PIDs of the children that were spawned and whose group got no SIGTERM after that.
abbrev pub orphans : System → History → List ℕ
orphans system [] = []
orphans system (Request.spawn command ∷ h) =
    with_child (system.spawned (Request.spawn command ∷ h)) (orphans system h)
orphans system (Request.terminate_group pid ∷ h) = without pid (orphans system h)
orphans system (Request.make_parent path ∷ h) = orphans system h
orphans system (Request.unlink path ∷ h) = orphans system h
orphans system (Request.open_log path ∷ h) = orphans system h
orphans system (Request.read_text path ∷ h) = orphans system h
orphans system (Request.poll_child ∷ h) = orphans system h
orphans system (Request.close_log ∷ h) = orphans system h
orphans system (Request.monotonic ∷ h) = orphans system h
orphans system (Request.sleep t ∷ h) = orphans system h
orphans system (Request.wait_child t ∷ h) = orphans system h

module _ (system : System) where
  pub record Left (children : List ℕ) (h : History) : Type 0 where
    pub left : orphans system h ≡ children

  -- The only child that is left has the PID.
  abbrev One : ℕ → History → Type 0
  One pid = Left (pid ∷ [])

  abbrev Reaped : History → Type 0
  Reaped = Left []

  Keeps-perform :
      (children : List ℕ) (request : Request)
      → ((h : History) → orphans system (request ∷ h) ≡ orphans system h)
      → Keeps (Left children) (perform system request)
  unfolding perform ask
  Keeps-perform children request same = record { at = λ h r. record { left = same h ∙ r.left } }

  -- The wait for a PID that is published spawns nothing and signals nothing.
  Keeps-found_or :
      (children : List ℕ) (found : Option ℕ) (again : Launch ℕ)
      → Keeps (Left children) again
      → Keeps (Left children) (found_or system found again)
  unfolding check_child sleep_for ask
  Keeps-found_or children (some pid) again keeps = Keeps-give (Left children) pid
  Keeps-found_or children none again keeps =
      Keeps->>= (Left children) (check_child system) _
        (record { at = λ h r. record { left = r.left } })
        λ _.
          Keeps->>= (Left children) (sleep_for system pid_interval) _
            (record { at = λ h r. record { left = r.left } }) (λ _. keeps)

  Keeps-before_deadline :
      (children : List ℕ) (early : Bool) (path : String) (again : Launch ℕ)
      → Keeps (Left children) again
      → Keeps (Left children) (before_deadline system early path again)
  unfolding read_pid ask
  Keeps-before_deadline children false path again keeps = Keeps-lift (Left children) _
  Keeps-before_deadline children true path again keeps =
      Keeps->>= (Left children) (read_pid system path) _
        (record { at = λ h r. record { left = r.left } })
        (λ found. Keeps-found_or children found again keeps)

  Keeps-read_clock : (children : List ℕ) → Keeps (Left children) (read_clock system)
  unfolding read_clock ask
  Keeps-read_clock children = record { at = λ h r. record { left = r.left } }

  Keeps-poll_pid_file :
      (children : List ℕ) (rounds : ℕ) (path : String) (deadline : ℕ)
      → Keeps (Left children) (poll_pid_file system rounds path deadline)
  unfolding poll_pid_file
  Keeps-poll_pid_file children zero path deadline =
      Keeps->>= (Left children) (read_clock system) _ (Keeps-read_clock children)
        (λ now. Keeps-lift (Left children) _)
  Keeps-poll_pid_file children (suc rounds) path deadline =
      Keeps->>= (Left children) (read_clock system) _ (Keeps-read_clock children) λ now.
        Keeps-before_deadline children (ltb now deadline) path
          (poll_pid_file system rounds path deadline)
          (Keeps-poll_pid_file children rounds path deadline)

  Keeps-wait :
      (children : List ℕ) (path : String) (timeout : ℕ)
      → Keeps (Left children) (wait_for_local_pid_file system path timeout)
  unfolding wait_for_local_pid_file
  Keeps-wait children path timeout =
      Keeps->>= (Left children) (read_clock system) _ (Keeps-read_clock children)
        (λ start. Keeps-poll_pid_file children _ path (start + timeout))

  -- Nothing is known before.
  abbrev Anything : History → Type 0
  Anything h = Unit {0}

  After-Reaped :
      {A : Type 0}
      → (result : Result A) (h : History) → Reaped h
      → After (λ _. Reaped) Reaped (result, h)
  After-Reaped (ok a) h r = r
  After-Reaped (err exc) h r = r

  without_self : (pid : ℕ) → without pid (pid ∷ []) ≡ []
  without_self pid = ground arith

  terminate-Reaped : (pid : ℕ) → Triple (One pid) (terminate system pid) (λ _. Reaped) Reaped
  unfolding terminate ask
  terminate-Reaped pid = record {
    after =
        λ h one. After-Reaped _ _ (record { left = ap (without pid) one.left ∙ without_self pid });
  }

  -- After the signal nothing of what `reap` does leaves a child.
  reap-Reaped : (pid : ℕ) → Triple (One pid) (reap system pid) (λ _. Reaped) Reaped
  unfolding reap
  reap-Reaped pid = Triple->>= (terminate-Reaped pid) λ _.
      Triple-Keeps (λ h r. r)
        (Keeps->>= Reaped (perform system (Request.wait_child 2_000_000_000)) _
          (Keeps-perform [] (Request.wait_child 2_000_000_000) (λ g. refl))
          (λ _. Keeps-perform [] Request.close_log (λ g. refl)))

  ended-After :
      (exc : Error) (o : Result (Unit {0}) × History)
      → After (λ _. Reaped) Reaped o
      → After {A = ℕ} (λ _. Anything) Reaped (ended (err exc) o)
  ended-After exc (ok _, h) a = a
  ended-After exc (err other, h) a = a

  reraise-After :
      (pid : ℕ) (o : Result ℕ × History)
      → One pid o.1
      → After (λ _. Anything) Reaped (reraise system pid o)
  reraise-After pid (ok workload, h) one = tt
  reraise-After pid (err exc, h) one =
      ended-After exc (reap system pid h) ((reap-Reaped pid).after h one)

  published_or_reaped-Reaped :
      (pid : ℕ) (path : String)
      → Triple (One pid) (published_or_reaped system pid path) (λ _. Anything) Reaped
  unfolding published_or_reaped
  published_or_reaped-Reaped pid path = record {
    after = λ h one.
        reraise-After pid (wait_for_local_pid_file system path 10_000_000_000 h)
          ((Keeps-wait (pid ∷ []) path 10_000_000_000).at h one);
  }

  give-Anything :
      {A : Type 0} (value : A) (P : History → Type 0) → Triple P (give value) (λ _. Anything) Reaped
  unfolding give
  give-Anything value P = record { after = λ h p. tt }

  tracked-Reaped :
      (pid : ℕ) (path : Option String)
      → Triple (One pid) (tracked system pid path) (λ _. Anything) Reaped
  tracked-Reaped pid none = give-Anything none (One pid)
  tracked-Reaped pid (some path) =
      Triple->>= (published_or_reaped-Reaped pid path) (λ workload. Triple-give (some workload))

  spawn-After :
      (h : History) (answer : Result ℕ)
      → orphans system h ≡ with_child answer []
      → After One Reaped (answer, h)
  spawn-After h (ok pid) e = record { left = e }
  spawn-After h (err exc) e = record { left = e }

  -- A `Popen` that raises has no child.
  spawn_child-Reaped :
      (command : List String) → Triple Reaped (spawn_child system command) One Reaped
  unfolding spawn_child ask
  spawn_child-Reaped command = record {
    after = λ h r.
        let g = Request.spawn command ∷ h in
        spawn-After g (system.spawned g) (ap (with_child (system.spawned g)) r.left);
  }

  unlink_stale-Reaped : (path : Option String) → Keeps Reaped (unlink_stale system path)
  unlink_stale-Reaped none = Keeps-give Reaped tt
  unlink_stale-Reaped (some path) = Keeps-perform [] (Request.unlink path) (λ h. refl)

  performed :
      (request : Request)
      → ((h : History) → orphans system (request ∷ h) ≡ orphans system h)
      → Triple Reaped (perform system request) (λ _. Reaped) Reaped
  performed request same = Triple-Keeps (λ h r. r) (Keeps-perform [] request same)

  start_process-Reaped :
      (command : List String) (log_path : String) (index : Option ℤ)
      → Triple Reaped (start_process system command log_path index) (λ _. Anything) Reaped
  unfolding start_process
  start_process-Reaped command log_path index =
      Triple->>= (performed (Request.make_parent log_path) (λ h. refl)) λ _.
        Triple->>=
          (Triple-lift (instrument_workload command index (workload_pid_path log_path index))
            (λ h r. r))
          λ actual_command.
            Triple->>=
              (Triple-Keeps (λ h r. r) (unlink_stale-Reaped (workload_pid_path log_path index)))
              λ _. Triple->>= (performed (Request.open_log log_path) (λ h. refl)) λ _.
                Triple->>= (spawn_child-Reaped actual_command) λ pid.
                  Triple->>= (tracked-Reaped pid (workload_pid_path log_path index))
                    λ workload. Triple-give _

  raised-After :
      (exc : Error) (o : Result ProcessHandle × History)
      → o.0 ≡ err exc
      → After (λ _. Anything) Reaped o
      → Reaped o.1
  raised-After exc (ok handle, h) e a = cc
  raised-After exc (err other, h) e a = a

  -- When `start_process` raises, whatever the system answered, it leaves no child that it spawned without
  -- SIGTERM sent after that to the group of that child's own PID, provided that none was left before: a `Popen`
  -- that raised has no child, and a workload PID that is not published in time, or cannot be read, has the
  -- child's group terminated first.
  pub orphans-start_process :
      (command : List String) (log_path : String) (index : Option ℤ) (exc : Error) (h : History)
      → orphans system h ≡ []
      → (start_process system command log_path index h).0 ≡ err exc
      → orphans system (start_process system command log_path index h).1 ≡ []
  orphans-start_process command log_path index exc h idle raised =
      let outcome = start_process system command log_path index h in
      let after = (start_process-Reaped command log_path index).after h (record { left = idle }) in
      (raised-After exc outcome raised after).left
