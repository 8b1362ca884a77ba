-- ===== src/Process/Local/Tidy.antt =====
-- When `LocalNode` (main.py) closes the log of a process, and when it signals.
use net_latency_lab.Base.{
  ℕ, suc, String, Bool, true, false, not, Option, none, some, List, ◌∷◌, [], ◌≡◌, refl, ◌∙◌, ◌⊎◌,
  inl, inr, ap, if◌then◌else◌,
}
use net_latency_lab.Base.Int.{ℤ}
use net_latency_lab.Python.Error.{Result, ok, err}
use net_latency_lab.Python.Paths.{PurePath, parent}
use net_latency_lab.Python.Stateful.{give, ◌>>=◌}
use net_latency_lab.Python.Stateful.Keeps.{Keeps, Keeps-give, Keeps->>=, Keeps-try_finally}
use net_latency_lab.Process.Node.{ProcessHandle, Signal, wrapper_pid}
use net_latency_lab.Process.Local.{
  Request, wait_child, poll_child, close_log, kill, kill_group, probe_pid, is_file, read_bytes,
  unlink, make_parents, write_bytes, History, System, Objects, Local, asked, ask, signalled, exists,
  present, is_running, released, assert_process, poll, close_stream, close_if_ended, finish_log,
  await_child, wait_process, send, send_if, signal_target, signal_process, signal_wrapper,
  process_exists, perform, require_file, read_content, fetch_file, remove_files,
}

abbrev pub is_ok : Result (Unit {0}) → Bool
is_ok (ok _) = true
is_ok (err exc) = false

module _ (system : System) where
  -- The newest request is a poll that found the process ended.
  abbrev pub has_ended : History → Bool
  has_ended (poll_child ∷ h) = not (is_running (system.status (poll_child ∷ h)))
  has_ended other = false

  -- The newest request is a poll that found the process running.
  abbrev pub runs : History → Bool
  runs (poll_child ∷ h) = is_running (system.status (poll_child ∷ h))
  runs other = false

  abbrev pub Allowed : ProcessHandle → Request → History → Type 0
  Allowed handle close_log h = has_ended h ≡ true
  Allowed handle (kill_group pid signum) h =
      (handle.workload_pid ≡ none) × (pid ≡ handle.pid) × (runs h ≡ true)
  Allowed handle (kill pid signum) h =
      (handle.workload_pid ≡ some pid) ⊎ ((pid ≡ handle.pid) × (runs h ≡ true))
  Allowed handle other h = Unit

  abbrev pub IsSafe : ProcessHandle → History → Type 0
  IsSafe handle [] = Unit
  IsSafe handle (request ∷ h) = Allowed handle request h × IsSafe handle h

  abbrev count_if : Bool → ℕ → ℕ
  count_if true n = suc n
  count_if false n = n

  -- How many closes of the log returned.
  abbrev pub closes : History → ℕ
  closes [] = 0
  closes (close_log ∷ h) = count_if (is_ok (system.done (close_log ∷ h))) (closes h)
  closes (request ∷ h) = closes h

  -- The closes, and the one that is left while the handle holds the log.
  abbrev pub streams : Objects → ℕ
  streams s = count_if s.log_stream (closes s.history)

  module _ (handle : ProcessHandle) (n : ℕ) where
    abbrev IsTidy : Objects → Type 0
    IsTidy s = IsSafe handle s.history × (streams s ≡ n)

    Keeps-ask :
        {A : Type 0} (request : Request) (answer : History → Result A)
        → ((h : History) → Allowed handle request h)
        → ((h : History) → closes (request ∷ h) ≡ closes h)
        → Keeps IsTidy (ask request answer)
    unfolding ask
    Keeps-ask request answer allowed same = record {
      at = λ s p. ((allowed s.history, p.0), ap (count_if s.log_stream) (same s.history) ∙ p.1);
    }

    Keeps-assert_process : Keeps IsTidy assert_process
    unfolding assert_process
    Keeps-assert_process = record { at = λ s p. p }

    Keeps-poll :
        {A : Type 0} (rest : Option ℤ → Local A)
        → ((status : Option ℤ) (s : Objects)
            → IsTidy s
            → has_ended s.history ≡ not (is_running status)
            → runs s.history ≡ is_running status
            → IsTidy (rest status s).1)
        → Keeps IsTidy (poll system >>= rest)
    unfolding poll ask ◌>>=◌
    Keeps-poll rest keeps = record {
      at = λ s p. keeps _ (asked poll_child s) ((tt, p.0), p.1) refl refl;
    }

    close-IsTidy :
        (s : Objects)
        → IsTidy s
        → has_ended s.history ≡ true
        → s.log_stream ≡ true
        → (answer : Result (Unit {0})) → system.done (close_log ∷ s.history) ≡ answer
        → IsTidy (released answer (asked close_log s))
    close-IsTidy s p ended held (ok tt) answered = ((ended, p.0), cc)
    close-IsTidy s p ended held (err exc) answered = ((ended, p.0), cc)

    either-IsTidy :
        (b : Bool) (o o' : Result (Unit {0}) × Objects)
        → (b ≡ true → IsTidy o.1)
        → (b ≡ false → IsTidy o'.1)
        → IsTidy (if b then o else o').1
    either-IsTidy true o o' first second = first refl
    either-IsTidy false o o' first second = second refl

    close_if_ended-IsTidy :
        (status : Option ℤ) (s : Objects)
        → IsTidy s
        → has_ended s.history ≡ not (is_running status)
        → IsTidy (close_if_ended system status s).1
    unfolding close_if_ended close_stream
    close_if_ended-IsTidy none s p ended = p
    close_if_ended-IsTidy (some status) s p ended =
        either-IsTidy s.log_stream (close_stream system s) (ok tt, s)
          (λ held. close-IsTidy s p ended held _ refl) (λ free. p)

    Keeps-finish_log : Keeps IsTidy (finish_log system)
    unfolding finish_log
    Keeps-finish_log =
        Keeps-poll (close_if_ended system)
          (λ status s p ended running. close_if_ended-IsTidy status s p ended)

    Keeps-wait_process : (timeout : ℕ) → Keeps IsTidy (wait_process system timeout)
    unfolding wait_process await_child
    Keeps-wait_process timeout = Keeps->>= IsTidy assert_process _ Keeps-assert_process λ _.
        Keeps-try_finally IsTidy (await_child system timeout) (finish_log system)
          (Keeps-ask (wait_child timeout) system.waited (λ h. tt) (λ h. refl)) Keeps-finish_log

    -- A signal that is only sent after a poll found the process running.
    Keeps-send_if :
        (request : Request)
        → ((h : History) → runs h ≡ true → Allowed handle request h)
        → ((h : History) → closes (request ∷ h) ≡ closes h)
        → Keeps IsTidy (poll system >>= send_if system request)
    unfolding send_if send ask give
    Keeps-send_if request allowed same = Keeps-poll (send_if system request) sends
      where
        sends :
            (status : Option ℤ) (s : Objects)
            → IsTidy s
            → has_ended s.history ≡ not (is_running status)
            → runs s.history ≡ is_running status
            → IsTidy (send_if system request status s).1
        sends none s p ended running =
            ((allowed s.history running, p.0), ap (count_if s.log_stream) (same s.history) ∙ p.1)
        sends (some status) s p ended running = p

    Keeps-signal_target :
        (workload : Option ℕ) (signum : Signal)
        → handle.workload_pid ≡ workload
        → Keeps IsTidy (signal_target system handle workload signum)
    unfolding signal_target send
    Keeps-signal_target (some pid) signum tracked =
        Keeps-ask (kill pid signum) (signalled system) (λ h. inl tracked) (λ h. refl)
    Keeps-signal_target none signum untracked =
        Keeps-send_if (kill_group handle.pid signum) (λ h running. (untracked, refl, running))
          (λ h. refl)

    Keeps-signal_process : (signum : Signal) → Keeps IsTidy (signal_process system handle signum)
    unfolding signal_process
    Keeps-signal_process signum =
        Keeps->>= IsTidy assert_process _ Keeps-assert_process
          (λ _. Keeps-signal_target handle.workload_pid signum refl)

    Keeps-signal_wrapper : (signum : Signal) → Keeps IsTidy (signal_wrapper system handle signum)
    unfolding signal_wrapper wrapper_pid
    Keeps-signal_wrapper signum =
        Keeps->>= IsTidy assert_process _ Keeps-assert_process (λ _.
          Keeps-send_if (kill handle.pid signum) (λ h running. inr (refl, running)) (λ h. refl))

    Keeps-process_exists : (pid : ℕ) → Keeps IsTidy (process_exists system pid)
    unfolding process_exists
    Keeps-process_exists pid = Keeps-ask (probe_pid pid) (exists system) (λ h. tt) (λ h. refl)

    Keeps-fetch_file :
        (source : String) (destination : PurePath)
        → Keeps IsTidy (fetch_file system source destination)
    unfolding fetch_file require_file perform read_content
    Keeps-fetch_file source destination =
        Keeps->>= IsTidy (require_file system source) _
          (Keeps-ask (is_file source) (present system) (λ h. tt) (λ h. refl))
          λ _.
            Keeps->>= IsTidy (perform system (make_parents (parent destination))) _
              (Keeps-ask (make_parents (parent destination)) system.done (λ h. tt) (λ h. refl))
              λ _.
                Keeps->>= IsTidy (read_content system source) _
                  (Keeps-ask (read_bytes source) system.content (λ h. tt) (λ h. refl))
                  λ bytes.
                    Keeps-ask (write_bytes destination bytes) system.done (λ h. tt) (λ h. refl)

    Keeps-remove_files : (paths : List String) → Keeps IsTidy (remove_files system paths)
    unfolding remove_files perform
    Keeps-remove_files [] = Keeps-give IsTidy tt
    Keeps-remove_files (path ∷ paths) =
        Keeps->>= IsTidy (perform system (unlink path)) _
          (Keeps-ask (unlink path) system.done (λ h. tt) (λ h. refl))
          (λ _. Keeps-remove_files paths)

-- What a caller may come to that calls the methods of a local node in any order, some with one handle, and goes on
-- after exceptions.
pub data Reaches (system : System) (handle : ProcessHandle) (s : Objects) : Objects → Type 0 where
  no_call : Reaches system handle s s
  waiting :
      (timeout : ℕ) {t : Objects}
      → Reaches system handle s t
      → Reaches system handle s (wait_process system timeout t).1
  signalling :
      (signum : Signal) {t : Objects}
      → Reaches system handle s t
      → Reaches system handle s (signal_process system handle signum t).1
  signalling_wrapper :
      (signum : Signal) {t : Objects}
      → Reaches system handle s t
      → Reaches system handle s (signal_wrapper system handle signum t).1
  probing :
      (pid : ℕ) {t : Objects}
      → Reaches system handle s t
      → Reaches system handle s (process_exists system pid t).1
  fetching :
      (source : String) (destination : PurePath) {t : Objects}
      → Reaches system handle s t
      → Reaches system handle s (fetch_file system source destination t).1
  removing :
      (paths : List String) {t : Objects}
      → Reaches system handle s t
      → Reaches system handle s (remove_files system paths t).1

module _ (system : System) (handle : ProcessHandle) (s : Objects) where
  -- Whatever a caller calls of a local node with a handle, in any order and whether the calls raise: the log is
  -- only closed right after a poll that found the process ended, the process group only signalled right
  -- after a poll that found it running and where no workload is tracked, and another signal goes to the
  -- tracked workload, or to the wrapper right after such a poll, provided that this held before; and the closes of
  -- the log that returned, with the one that is left while the handle holds it, stay as many as they were.
  pub reached-IsSafe :
      {t : Objects}
      → IsSafe system handle s.history
      → Reaches system handle s t
      → IsSafe system handle t.history × (streams system t ≡ streams system s)
  reached-IsSafe safe no_call = (safe, refl)
  reached-IsSafe safe (waiting timeout r) =
      (Keeps-wait_process system handle (streams system s) timeout).at _ (reached-IsSafe safe r)
  reached-IsSafe safe (signalling signum r) =
      (Keeps-signal_process system handle (streams system s) signum).at _ (reached-IsSafe safe r)
  reached-IsSafe safe (signalling_wrapper signum r) =
      (Keeps-signal_wrapper system handle (streams system s) signum).at _ (reached-IsSafe safe r)
  reached-IsSafe safe (probing pid r) =
      (Keeps-process_exists system handle (streams system s) pid).at _ (reached-IsSafe safe r)
  reached-IsSafe safe (fetching source destination r) =
      (Keeps-fetch_file system handle (streams system s) source destination).at _
        (reached-IsSafe safe r)
  reached-IsSafe safe (removing paths r) =
      (Keeps-remove_files system handle (streams system s) paths).at _ (reached-IsSafe safe r)
