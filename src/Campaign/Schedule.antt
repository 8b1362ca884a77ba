-- ===== src/Campaign/Schedule.antt =====
-- `RunTuple` and `make_run_tuples` (main.py): the runs of a campaign, in their frozen order.
pub mod Cell
pub mod Grid
use net_latency_lab.Base.{
  ℕ, zero, suc, ◌+◌, String, Bool, true, false, Option, none, some, List, [], ◌∷◌, ◌++◌, map,
  if◌then◌else◌,
}
use net_latency_lab.Base.Int.{ℤ, pos, pos_part}
use net_latency_lab.Base.Members.{concat_map}
use text.Mathlib.Text.{◌==◌}

pub record RunTuple : Type 0 where
  pub benchmark_index : ℕ
  pub benchmark_name : String
  pub campaign : String
  pub repetition : ℕ
  pub rate : ℕ
  pub burst : ℕ
  pub batch : ℕ

-- What the planner reads of one entry of `config["benchmarks"]`. A field that is read by
-- `get` with a default is an option.
pub record Benchmark : Type 0 where
  pub name : String
  pub enabled : Option Bool
  pub campaign : Option String
  pub repetitions : Option ℤ
  pub rates_pps : List ℕ
  pub burst_sizes : Option (List ℕ)
  pub batch_sizes : Option (List ℕ)
  pub uses_qualified_rates : Option Bool

-- `benchmark.get(key, default)`
abbrev pub get_or {ℓ} : {A : Type ℓ} → Option A → A → A
get_or none default = default
get_or (some a) default = a

-- What the planner reads of `config["global"]["runtime"]`.
pub record Runtime : Type 0 where
  pub repetitions : ℤ
  pub shuffle_seed : Option ℤ

pub record Config : Type 0 where
  pub runtime : Runtime
  pub benchmarks : List Benchmark

-- `range(first, first + count)`
abbrev pub range : ℕ → ℕ → List ℕ
range first zero = []
range first (suc count) = first ∷ range (suc first) count

abbrev pub campaign_of : Benchmark → String
campaign_of benchmark = get_or benchmark.campaign "comparison"

abbrev pub repetitions_of : Runtime → Benchmark → List ℕ
repetitions_of runtime benchmark =
    range 1 (pos_part (get_or benchmark.repetitions runtime.repetitions))

-- The four nested loops over one benchmark.
pub tuples_of : Runtime → ℕ → Benchmark → List RunTuple
tuples_of runtime index benchmark =
    concat_map
      (λ repetition.
        concat_map
          (λ rate.
            concat_map
              (λ burst.
                map
                  (λ batch. record {
                    benchmark_index = index;
                    benchmark_name = benchmark.name;
                    campaign = campaign_of benchmark;
                    repetition = repetition;
                    rate = rate;
                    burst = burst;
                    batch = batch;
                  })
                  (get_or benchmark.batch_sizes (1 ∷ [])))
              (get_or benchmark.burst_sizes (1 ∷ [])))
          benchmark.rates_pps)
      (repetitions_of runtime benchmark)

-- `destination`: whether the runs of a benchmark are qualification runs.
abbrev pub is_qualification : Benchmark → Bool
is_qualification benchmark = campaign_of benchmark == "sender_qualification"

abbrev pub is_enabled : Benchmark → Bool
is_enabled benchmark = get_or benchmark.enabled true

-- The loop over `enumerate(config["benchmarks"])`, from `index` on: the runs appended to
-- `qualification` and to `comparative`.
pub collect : Runtime → ℕ → List Benchmark → List RunTuple × List RunTuple
unfolding tuples_of
collect runtime index [] = ([], [])
collect runtime index (benchmark ∷ benchmarks) =
    let rest = collect runtime (suc index) benchmarks in
    if is_enabled benchmark
    then (if is_qualification benchmark
        then (tuples_of runtime index benchmark ++ rest.0, rest.1)
        else (rest.0, tuples_of runtime index benchmark ++ rest.1))
    else rest

abbrev pub seed_of : Runtime → ℤ
seed_of runtime = get_or runtime.shuffle_seed (pos 477)

-- `random.Random(seed).shuffle` is the argument.
pub make_run_tuples : (ℤ → List RunTuple → List RunTuple) → Config → List RunTuple × List RunTuple
unfolding collect
make_run_tuples shuffle config =
    let (qualification, comparative) = collect config.runtime 0 config.benchmarks in
    let seed = seed_of config.runtime in (shuffle seed qualification, shuffle seed comparative)
