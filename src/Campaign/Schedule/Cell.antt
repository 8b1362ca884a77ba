-- ===== src/Campaign/Schedule/Cell.antt =====
-- The runs of one benchmark in `make_run_tuples` (main.py): the cells of its grid.
use mathlib.Core.List.{Mem, mem-map}
use mathlib.Core.Logic.{∥∥₁_elim, ∥∥₁_map}
use net_latency_lab.Base.{ℕ, ◌≡◌, refl, [], ◌∷◌, subst, sym}
use net_latency_lab.Base.Members.{mem-concat_map}
use net_latency_lab.Campaign.Schedule.{
  RunTuple, Benchmark, Runtime, get_or, campaign_of, repetitions_of, tuples_of,
}

-- The run is a cell of the grid of `benchmark`, which stands at its index.
pub record IsCell (runtime : Runtime) (index : ℕ) (benchmark : Benchmark) (t : RunTuple)
    : Type 0 where
  pub at_index : t.benchmark_index ≡ index
  pub named : t.benchmark_name ≡ benchmark.name
  pub in_campaign : t.campaign ≡ campaign_of benchmark
  pub repetition : Mem t.repetition (repetitions_of runtime benchmark)
  pub rate : Mem t.rate benchmark.rates_pps
  pub burst : Mem t.burst (get_or benchmark.burst_sizes (1 ∷ []))
  pub batch : Mem t.batch (get_or benchmark.batch_sizes (1 ∷ []))

module _ (runtime : Runtime) (index : ℕ) (benchmark : Benchmark) (t : RunTuple) where
  pub tuples_of-IsCell :
      Mem t (tuples_of runtime index benchmark) → ∥ IsCell runtime index benchmark t ∥₁
  unfolding tuples_of
  tuples_of-IsCell m = ∥∥₁_elim ((mem-concat_map _ t _).0 m) squash₁ λ (repetition, m₁, n₁).
      ∥∥₁_elim ((mem-concat_map _ t _).0 n₁) squash₁ λ (rate, m₂, n₂).
        ∥∥₁_elim ((mem-concat_map _ t _).0 n₂) squash₁ λ (burst, m₃, n₃).
          ∥∥₁_map (mem-map.0 n₃) λ (batch, m₄, e).
            subst (IsCell runtime index benchmark) e (record {
              at_index = refl;
              named = refl;
              in_campaign = refl;
              repetition = m₁;
              rate = m₂;
              burst = m₃;
              batch = m₄;
            })

  pub IsCell-mem : IsCell runtime index benchmark t → Mem t (tuples_of runtime index benchmark)
  unfolding tuples_of
  IsCell-mem c = (mem-concat_map _ t _).1 ∣ (
    t.repetition,
    c.repetition,
    (mem-concat_map _ t _).1 ∣ (
      t.rate,
      c.rate,
      (mem-concat_map _ t _).1 ∣ (
        t.burst,
        c.burst,
        mem-map.1 ∣ (
          t.batch,
          c.batch,
          λ i. record {
            benchmark_index = sym c.at_index i;
            benchmark_name = sym c.named i;
            campaign = sym c.in_campaign i;
            repetition = t.repetition;
            rate = t.rate;
            burst = t.burst;
            batch = t.batch;
          },
        ) ∣₁,
      ) ∣₁,
    ) ∣₁,
  ) ∣₁
