-- ===== src/Execution/Run/Silent/Ended.antt =====
-- While the sender of a run of `execute_run` (main.py) sends, nothing is asked of the nodes.
use net_latency_lab.Base.{false, some, get_elem?, ◌≡◌, refl, sym, subst, String}
use net_latency_lab.Python.Error.{Result, ok, err}
use net_latency_lab.Python.Stateful.{Stateful, give, proceed, ◌>>=◌}
use net_latency_lab.Python.Stateful.Keeps.{Triple-Keeps}
use net_latency_lab.Python.Stateful.Triple.{After, Triple, Triple->>=, Triple-returned}
use net_latency_lab.Campaign.Schedule.{RunTuple}
use net_latency_lab.Pacing.Report.{Percentiles}
use net_latency_lab.Verdict.Qualification.{Floats}
use net_latency_lab.Execution.Commands.{get_or}
use net_latency_lab.Execution.Lab.{History, Lab, Locals, no_locals}
use net_latency_lab.Execution.Plan.{Plan, BenchmarkConfig, RunConfig, element, make_plan}
use net_latency_lab.Execution.Measure.{Numbers, silence_seconds}
use net_latency_lab.Execution.Stable.{make_plan-Keeps}
use net_latency_lab.Execution.Run.{run_plan, execute_run}
use net_latency_lab.Execution.Run.Silent.{launched, IsSilent, Quiet, Quiet-IsStable}
use net_latency_lab.Execution.Run.Silent.Kept.{run_plan-Keeps}

-- The plan is of the configuration's benchmark.
abbrev IsPlanned : {F : Type 0} → RunConfig F → RunTuple → Plan F → Type 0
IsPlanned config item plan =
    (element (get_elem? config.benchmarks item.benchmark_index) ≡ ok plan.benchmark)
    × (plan.config ≡ config)

module _ {S A : Type 0} (P : Type 0) where
  constant : (code : Stateful S A) → Triple (λ _. P) code (λ _ _. P) (λ _. Unit {0})
  constant code = Triple-Keeps (λ s p. tt) (record { at = λ s p. p })

give-IsPlanned :
    {F : Type 0} (config : RunConfig F) (item : RunTuple) (plan : Plan F) (s : Locals F)
    → IsPlanned config item plan
    → After (λ plan _. IsPlanned config item plan) (λ _. Unit {0}) (give plan s)
unfolding give
give-IsPlanned config item plan s p = p

module _ {F : Type 0} (str_number : F → String) (lab : Lab F) where
  make_plan-IsPlanned :
      (config : RunConfig F) (session_id : String) (item : RunTuple)
      → Triple
          (λ _. Unit {0})
          (make_plan str_number lab config session_id item)
          (λ plan _. IsPlanned config item plan)
          (λ _. Unit {0})
  unfolding make_plan
  make_plan-IsPlanned config session_id item =
      Triple->>=
        (Triple-returned (element (get_elem? config.benchmarks item.benchmark_index)) (λ s. tt))
        (λ b. Triple->>= (constant _ _) (λ _. Triple->>= (constant _ _) (λ _.
          Triple->>= (constant _ _) (λ _. Triple->>= (constant _ _) (λ _.
            Triple->>= (constant _ _)
              (λ _. record { after = λ s p. give-IsPlanned config item _ s (p, refl) }))))))

-- The timed interval and the drain after it.
abbrev silence_of : {F : Type 0} → Numbers F → RunConfig F → BenchmarkConfig F → F
silence_of numbers config benchmark =
    numbers.add benchmark.sender_config.duration_seconds
      (get_or config.runtime.post_sender_drain_seconds numbers.one)

module _ {F : Type 0} (numbers : Numbers F) (floats : Floats F) (percentiles : Percentiles)
    (lab : Lab F) (config : RunConfig F) (item : RunTuple) (benchmark : BenchmarkConfig F)
    (planned : get_elem? config.benchmarks item.benchmark_index ≡ some benchmark) where
  silence_of-planned :
      (plan : Plan F)
      → IsPlanned config item plan
      → silence_of numbers config benchmark ≡ silence_seconds numbers plan
  silence_of-planned plan (found, same) =
      let b : benchmark ≡ plan.benchmark = cc (found, planned) in rw (b, sym same) refl

  proceed-Quiet :
      (o : Result (Plan F) × Locals F)
      → After (λ plan _. IsPlanned config item plan) (λ _. Unit {0}) o
      → Quiet lab (silence_of numbers config benchmark) o.1
      → Quiet lab
          (silence_of numbers config benchmark)
          (proceed (run_plan numbers floats percentiles lab) o).1
  proceed-Quiet (ok plan, s) of_item quiet =
      subst (λ silence. Quiet lab silence (run_plan numbers floats percentiles lab plan s).1)
        (sym (silence_of-planned plan of_item))
        ((run_plan-Keeps numbers floats percentiles lab plan).at s
          (subst (λ silence. Quiet lab silence s) (silence_of-planned plan of_item) quiet))
  proceed-Quiet (err exc, s) of_item quiet = quiet

  -- In a run, from a history in which that holds already, each start of the sender that returns is
  -- followed by the sleep of the benchmark's duration and the drain, with no other request between:
  -- nothing is asked of either node while the sender sends.
  pub execute_run-IsSilent :
      (session_id : String) (history : History F)
      → IsSilent lab (silence_of numbers config benchmark) history
      → launched lab history ≡ false
      → let end = (execute_run numbers floats percentiles lab config session_id item history).1 in
        IsSilent lab (silence_of numbers config benchmark) end × (launched lab end ≡ false)
  unfolding execute_run ◌>>=◌
  execute_run-IsSilent session_id history silent settled =
      let silence = silence_of numbers config benchmark in
      let code = make_plan numbers.str_number lab config session_id item in
      let kept =
        make_plan-Keeps numbers.str_number lab (Quiet lab silence) (Quiet-IsStable lab silence)
          config session_id item in
      proceed-Quiet (code (no_locals history))
        ((make_plan-IsPlanned numbers.str_number lab config session_id item).after
          (no_locals history) tt)
        (kept.at (no_locals history) (silent, settled))
