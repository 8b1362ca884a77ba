-- ===== src/Campaign/Tests.antt =====
-- A plan, a campaign and an attempt at a run (main.py), on concrete inputs.
use mathlib.Core.List.{Mem}
use mathlib.Core.List.Perm
use net_latency_lab.Base.{
  ℕ, zero, suc, ◌&&◌, ◌+◌, ◌≤◌, ◌≡◌, refl, ◌↔◌, Bool, true, false, none, some, List, [], ◌∷◌, ◌++◌,
  all, any, filter, contains, not, ◌||◌, arith,
}
use net_latency_lab.Base.Int.{ℤ, pos}
use net_latency_lab.Python.Error.{Error, Result, ok, err}
use net_latency_lab.Campaign.Schedule.{RunTuple, Benchmark, Config, make_run_tuples}
use net_latency_lab.Campaign.Schedule.Grid.{select, IsPlanned, mem-make_run_tuples}
use net_latency_lab.Campaign.Eligibility.{RunMetadata, passed_of, qualification_rates, freeze}
use net_latency_lab.Campaign.Eligibility.Rates.{
  measures, is_qualified, contains-qualification_rates, freeze-qualification_rates,
}
use net_latency_lab.Campaign.Attempts.{execute_with_progress, execute_with_progress_count}
use net_latency_lab.Campaign.Attempts.Outcome.{Attempted, execute_with_progress_iff}
use net_latency_lab.Campaign.Run.{Environment, run_campaign}
use net_latency_lab.Campaign.Run.Machine.{view}
use net_latency_lab.Campaign.Run.Refines.{Refines, run_campaign-Refines}
use net_latency_lab.Campaign.Run.Order.{IsOrdered, frozen_of, run_campaign-IsOrdered}

abbrev sweep : Benchmark
sweep = record {
  name = "threaded";
  enabled = none;
  campaign = none;
  repetitions = some (pos 2);
  rates_pps = 1000 ∷ 2000 ∷ [];
  burst_sizes = none;
  batch_sizes = some (1 ∷ 8 ∷ []);
  uses_qualified_rates = some true;
}

abbrev config : Config
config = record {
  runtime = record { repetitions = pos 3; shuffle_seed = none };
  benchmarks = sweep ∷ [];
}

-- A shuffle that leaves every list as it is.
abbrev unshuffled : ℤ → List RunTuple → List RunTuple
unshuffled seed runs = runs

abbrev cell : RunTuple
cell = record {
  benchmark_index = 0;
  benchmark_name = "threaded";
  campaign = "comparison";
  repetition = 2;
  rate = 2000;
  burst = 1;
  batch = 8;
}

mem-make_run_tuples_example :
    Mem cell (select false (make_run_tuples unshuffled config)) ↔ ∥ IsPlanned config false cell ∥₁
mem-make_run_tuples_example =
    mem-make_run_tuples unshuffled (λ seed runs. Perm.refl runs) config false cell

-- A node that counts the runs; the run at 2000 packets a second loses its connection the first time.
abbrev flaky : RunTuple → ℕ → Result RunTuple × ℕ
flaky item zero = (err Error.connection_error, 1)
flaky item (suc n) = (ok item, suc (suc n))

abbrev reconnected : ℕ → Result (Unit {0}) × ℕ
reconnected n = (ok tt, n)

-- The connection is lost once, and the second run returns.
execute_with_progress_iff_example :
    (execute_with_progress flaky reconnected cell 0 ≡ (ok cell, 2))
    ↔ Attempted flaky reconnected cell 0 (ok cell, 2)
execute_with_progress_iff_example = execute_with_progress_iff flaky reconnected cell 0 (ok cell, 2)

flaky_count : (item : RunTuple) (n : ℕ) → (flaky item n).1 ≡ suc n
flaky_count item zero = refl
flaky_count item (suc n) = refl

execute_with_progress_count_example :
    (0 + 1 ≤ (execute_with_progress flaky reconnected cell 0).1)
    × ((execute_with_progress flaky reconnected cell 0).1 ≤ 0 + 2)
execute_with_progress_count_example =
    execute_with_progress_count flaky reconnected (λ n. n) flaky_count (λ n. refl) cell 0

abbrev measured : List RunMetadata
measured =
    record { campaign = "sender_qualification"; requested_rate_pps = 2000; passed = some true }
    ∷ record { campaign = "sender_qualification"; requested_rate_pps = 1000; passed = some true }
    ∷ record { campaign = "sender_qualification"; requested_rate_pps = 3000; passed = none }
    ∷ []

contains-qualification_rates_example :
    contains 2000 (qualification_rates measured)
    ≡ (any (measures 2000) measured && all (λ m. not (measures 2000 m) || passed_of m) measured)
contains-qualification_rates_example = contains-qualification_rates 2000 measured

abbrev always : RunTuple → Bool
always item = true

freeze-qualification_rates_example :
    freeze always (some (qualification_rates measured)) (cell ∷ record cell { rate = 3000 } ∷ [])
    ≡ filter (is_qualified always measured) (cell ∷ record cell { rate = 3000 } ∷ [])
freeze-qualification_rates_example =
    freeze-qualification_rates always measured (cell ∷ record cell { rate = 3000 } ∷ [])

-- The result of a run is its tuple, and every qualification run passes.
abbrev laboratory : Environment ℕ RunTuple
laboratory = record {
  build = reconnected;
  execute_run = flaky;
  reconnect_nodes = reconnected;
  close = λ n. n;
  metadata_object = λ item. record {
    campaign = item.campaign;
    requested_rate_pps = item.rate;
    passed = some true;
  };
}

abbrev itself : RunTuple → RunTuple
itself item = item

flaky_label : (item : RunTuple) (n : ℕ) (r : RunTuple) → (flaky item n).0 ≡ ok r → itself r ≡ item
flaky_label item zero r h = cc
flaky_label item (suc n) r h = ground arith

run_campaign-IsOrdered_example :
    IsOrdered laboratory itself flaky_label
      ((record cell { campaign = "sender_qualification" } ∷ [])
        ++ frozen_of laboratory itself flaky_label
            (run_campaign laboratory false always
              (record cell { campaign = "sender_qualification" } ∷ [])
              (cell ∷ [])
              0).1)
      (run_campaign laboratory false always
        (record cell { campaign = "sender_qualification" } ∷ [])
        (cell ∷ [])
        0)
run_campaign-IsOrdered_example =
    run_campaign-IsOrdered laboratory itself flaky_label false always
      (record cell { campaign = "sender_qualification" } ∷ []) (cell ∷ []) 0

run_campaign-Refines_example :
    Refines laboratory itself flaky_label always
      (view (record cell { campaign = "sender_qualification" } ∷ []) (cell ∷ []) [] false)
      (run_campaign laboratory false always
        (record cell { campaign = "sender_qualification" } ∷ [])
        (cell ∷ [])
        0)
run_campaign-Refines_example =
    run_campaign-Refines laboratory itself flaky_label always false
      (record cell { campaign = "sender_qualification" } ∷ []) (cell ∷ []) 0
