-- ===== src/Campaign/Eligibility.antt =====
-- `qualification_rates`, and the choice of the frozen comparative order in `run_campaign` (main.py).
pub mod Rates
pub mod Ascending
use net_latency_lab.Base.{
  ℕ, String, Bool, true, false, not, ◌&&◌, ◌||◌, Option, none, some, List, [], ◌∷◌, ◌++◌, all, any,
  filter, contains, ltb, ◌==◌, if◌then◌else◌,
}
use net_latency_lab.Campaign.Schedule.{RunTuple, Benchmark, Config, get_or}
use text.Mathlib.Text.{◌==◌ as str_eq}

-- What the selection of rates reads of the metadata of a run.
pub record RunMetadata : Type 0 where
  pub campaign : String
  pub requested_rate_pps : ℕ
  -- `metadata.get("qualification", {}).get("passed")`
  pub passed : Option Bool

abbrev pub passed_of : RunMetadata → Bool
passed_of metadata = get_or metadata.passed false

abbrev pub is_qualifying : RunMetadata → Bool
is_qualifying metadata = str_eq metadata.campaign "sender_qualification"

-- A dict from rates to the runs at that rate, in the order of insertion.
abbrev pub ByRate : Type 0
ByRate = List (ℕ × List RunMetadata)

-- `by_rate.setdefault(rate, []).append(metadata)`
pub append_at : ℕ → RunMetadata → ByRate → ByRate
append_at rate metadata [] = (rate, metadata ∷ []) ∷ []
append_at rate metadata ((r, runs) ∷ by_rate) =
    if rate == r
    then (r, runs ++ metadata ∷ []) ∷ by_rate
    else (r, runs) ∷ append_at rate metadata by_rate

pub group : List RunMetadata → ByRate → ByRate
unfolding append_at
group [] by_rate = by_rate
group (metadata ∷ rest) by_rate = group rest (
    if is_qualifying metadata
    then append_at metadata.requested_rate_pps metadata by_rate
    else by_rate)

-- `sorted(by_rate.items())`: the rates of a dict differ, so they decide the order.
pub insert_sorted : ℕ × List RunMetadata → ByRate → ByRate
insert_sorted e [] = e ∷ []
insert_sorted e (f ∷ by_rate) = if ltb e.0 f.0 then e ∷ f ∷ by_rate else f ∷ insert_sorted e by_rate

pub sorted : ByRate → ByRate
unfolding insert_sorted
sorted [] = []
sorted (e ∷ by_rate) = insert_sorted e (sorted by_rate)

-- `runs and all(run… .get("passed", False) for run in runs)`
abbrev pub all_passed : List RunMetadata → Bool
all_passed [] = false
all_passed (run ∷ runs) = all passed_of (run ∷ runs)

pub eligible_rates : ByRate → List ℕ
eligible_rates [] = []
eligible_rates ((rate, runs) ∷ by_rate) =
    let rest = eligible_rates by_rate in if all_passed runs then rate ∷ rest else rest

pub qualification_rates : List RunMetadata → List ℕ
unfolding group sorted eligible_rates
qualification_rates run_metadata = eligible_rates (sorted (group run_metadata []))

-- The filter on `comparative`; `uses_qualified` looks the flag up in the run's benchmark.
pub freeze : (RunTuple → Bool) → Option (List ℕ) → List RunTuple → List RunTuple
freeze uses_qualified none comparative = comparative
freeze uses_qualified (some eligible) comparative =
    filter (λ item. not (uses_qualified item) || contains item.rate eligible) comparative
