-- ===== src/Process/Workload/Tests.antt =====
-- The command of a profiled receiver (main.py).
use net_latency_lab.Base.{String, some, List, [], ◌∷◌, ◌++◌, ◌≡◌, refl, ◌↔◌}
use net_latency_lab.Base.Int.{pos}
use net_latency_lab.Python.Error.{ok}
use net_latency_lab.Process.Workload.{quote, all_safe, escaped, shim, instrument_workload}
use net_latency_lab.Process.Workload.Instrumented.{
  IsInstrumented, instrument_workload-IsInstrumented,
}

abbrev command : List String
command = "perf" ∷ "stat" ∷ "receiver_threaded" ∷ "--port" ∷ "9000" ∷ []

abbrev instrumented : List String
instrumented =
    ("perf" ∷ "stat" ∷ []) ++ shim "/tmp/run.pid" ++ ("receiver_threaded" ∷ "--port" ∷ "9000" ∷ [])

instrument_workload-IsInstrumented_example :
    (instrument_workload command (some (pos 2)) (some "/tmp/run.pid") ≡ ok instrumented)
    ↔ IsInstrumented command (some (pos 2)) (some "/tmp/run.pid") instrumented
instrument_workload-IsInstrumented_example =
    instrument_workload-IsInstrumented command (some (pos 2)) (some "/tmp/run.pid") instrumented

spaces-quote : quote "it's here" ≡ "'it'\"'\"'s here'"
unfolding quote all_safe escaped
spaces-quote = refl
