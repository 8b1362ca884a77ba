-- ===== src/Process/Remote/Start/Killed.antt =====
-- What `RemoteNode.start_process` (main.py) has done when it raises.
use net_latency_lab.Base.{
  String, ◌≡◌, refl, sym, ap, ◌∙◌, ◌⊎◌, inl, inr, Option, List, ◌∷◌, length, ◌==◌, ==_iff,
  Bool-cases, subst,
}
use net_latency_lab.Base.Int.{ℤ}
use net_latency_lab.Python.Error.{Error, Result, ok, err}
use net_latency_lab.Python.Spaces.{split_words}
use net_latency_lab.Python.Stateful.{lift, give, ended, proceed, ◌>>=◌}
use net_latency_lab.Config.Checked.{ok_inj}
use net_latency_lab.Process.Workload.{instrument_workload}
use net_latency_lab.Process.Launch.{workload_pid_path}
use net_latency_lab.Process.Remote.{Step, History, Host, exec_over_ssh}
use net_latency_lab.Process.Remote.Start.{
  Pids, launch_command, kill_group_command, expected_pids, launched_words, read_pids, kill_group,
  kill_and_reraise, launch, launch_or_kill, start_process,
}

-- The history of a start that raised, from `h` on: the launch was executed, and the kill of its group after it; or
-- the launch alone, which printed as many words as PIDs are expected, but reading them raised.
pub data Failed (host : Host) (command log_path : String) (workload_path : Option String)
    (h : History) : History → Type 0 where
  killed :
      Failed host command log_path workload_path h
        (Step.exec (kill_group_command log_path) ∷ Step.exec command ∷ h)
  misread :
      (text : String)
      → host.output (Step.exec command ∷ h) ≡ ok text
      → length (split_words text) ≡ expected_pids workload_path
      → {exc : Error} → read_pids workload_path (split_words text) ≡ err exc
      → Failed host command log_path workload_path h (Step.exec command ∷ h)

words-length :
    (workload_path : Option String) (answer : Result String) (words : List String)
    → launched_words workload_path answer ≡ ok words
    → (text : String) × (answer ≡ ok text)
      × (split_words text ≡ words)
      × (length (split_words text) ≡ expected_pids workload_path)
unfolding launched_words
words-length workload_path (err exc) words e = cc
words-length workload_path (ok text) words e =
    let words' = split_words text in
    elim (Bool-cases (length words' == expected_pids workload_path)) [
      | inl enough ↦ (
        text,
        refl,
        ok_inj (rw enough at e),
        (==_iff (length words') (expected_pids workload_path)).0 enough,
      )
      | inr other ↦ let never = rw other at e in cc
    ]

module _ (host : Host) where
  proceed-state :
      (answer : Result String) (g : History)
      → (proceed (λ (output : String). give {S = History} tt) (answer, g)).1 ≡ g
  unfolding give
  proceed-state (ok output) g = refl
  proceed-state (err exc) g = refl

  kill_group-state :
      (log_path : String) (g : History)
      → (kill_group host log_path g).1 ≡ Step.exec (kill_group_command log_path) ∷ g
  unfolding kill_group exec_over_ssh ◌>>=◌
  kill_group-state log_path g =
      proceed-state (host.output (Step.exec (kill_group_command log_path) ∷ g))
        (Step.exec (kill_group_command log_path) ∷ g)

  abbrev rest_of : String → Option String → Result (List String) × History → Result Pids × History
  rest_of log_path path o =
      proceed (λ words. lift (read_pids path words)) (kill_and_reraise host log_path o)

  launched-Failed :
      (command log_path : String) (path : Option String) (h : History)
      (result : Result (List String))
      → launched_words path (host.output (Step.exec command ∷ h)) ≡ result
      → (exc : Error) → (rest_of log_path path (result, Step.exec command ∷ h)).0 ≡ err exc
      → Failed host command log_path path h
          (rest_of log_path path (result, Step.exec command ∷ h)).1
  unfolding kill_and_reraise lift
  launched-Failed command log_path path h (ok words) launched exc raised =
      let (text, answered, same_words, enough) =
        words-length path (host.output (Step.exec command ∷ h)) words launched in
      misread text answered enough (ap (read_pids path) same_words ∙ raised)
  launched-Failed command log_path path h (err e) launched exc raised =
      let g = Step.exec command ∷ h in
      let state = reraised-state (kill_group host log_path g) ∙ kill_group-state log_path g in
      subst (λ k. Failed host command log_path path h k) (sym state) killed
    where
      reraised-state :
          (o : Result (Unit {0}) × History)
          → (proceed (λ words. lift (read_pids path words)) (ended (err e) o)).1 ≡ o.1
      reraised-state (ok _, k) = refl
      reraised-state (err other, k) = refl

  start-Failed :
      (command : List String) (log_path : String) (path : Option String) (h : History)
      (instrumented : Result (List String)) (exc : Error)
      → let end =
          proceed
            (λ actual.
              launch_or_kill host (launch_command actual log_path path) log_path path >>= λ words.
              lift (read_pids path words))
            (instrumented, h) in
        end.0 ≡ err exc
        → (end.1 ≡ h)
          ⊎ ((actual : List String) × (instrumented ≡ ok actual)
              × Failed host (launch_command actual log_path path) log_path path h end.1)
  unfolding launch_or_kill launch ◌>>=◌
  start-Failed command log_path path h (err e) exc raised = inl refl
  start-Failed command log_path path h (ok actual) exc raised = inr (
    actual,
    refl,
    launched-Failed (launch_command actual log_path path) log_path path h _ refl exc raised,
  )

  -- When the start of a remote process raises, whatever the host answered, then either nothing was executed; or
  -- the launch was, and after it the command that kills the group of the published PID; or the launch alone,
  -- in which case it printed as many words as PIDs are expected, but reading them as integers raised.
  pub start_process-Failed :
      (command : List String) (log_path : String) (index : Option ℤ) (exc : Error) (h : History)
      → (start_process host command log_path index h).0 ≡ err exc
      → let path = workload_pid_path log_path index in
        let end = (start_process host command log_path index h).1 in
        (end ≡ h)
        ⊎ ((actual : List String) × (instrument_workload command index path ≡ ok actual)
            × Failed host (launch_command actual log_path path) log_path path h end)
  unfolding start_process ◌>>=◌ lift
  start_process-Failed command log_path index exc h raised =
      let path = workload_pid_path log_path index in
      start-Failed command log_path path h (instrument_workload command index path) exc raised
