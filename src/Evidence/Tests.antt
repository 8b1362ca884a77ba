-- ===== src/Evidence/Tests.antt =====
-- Claims of analysis/generate_claim_evidence.py on concrete measurements.
use net_latency_lab.Base.{
  ℕ, ◌*◌, ◌/◌, String, true, false, Option, none, some, List, [], ◌∷◌, ◌≡◌, refl, ◌↔◌, ltb, leb,
  ◌==◌, if◌then◌else◌,
}
use net_latency_lab.Base.Int.{ℤ, pos}
use net_latency_lab.Python.Error.{ok}
use net_latency_lab.Verdict.State.{lookup}
use net_latency_lab.Evidence.Blockers.{
  Arithmetic, Selected, ProfileMedians, RunRow, Runs, column_blockers, split_bars,
  mechanism_blockers, throughput_blockers,
}
use net_latency_lab.Evidence.Blockers.Absent.{IsClear, column_blockers_iff}
use net_latency_lab.Evidence.Claim.{EvidenceRow, evaluate, generate}
use net_latency_lab.Evidence.Claim.Supported.{IsFaster}
use net_latency_lab.Evidence.Claim.Made.{sentence_of, IsProfiled, evaluate_iff}

-- Losses in thousandths of a percent, ratios in hundredths.
abbrev floats : Arithmetic ℕ
floats = record {
  is_nan = λ f. false;
  is_lossy = λ f. ltb 100 f;
  is_small = λ f. ltb f 105;
  at_most = leb;
  exceeds_fraction = λ f g. ltb (95 * g) (100 * f);
  truncated = pos;
  divided = λ f g. if g == 0 then none else some (100 * f / g);
}

abbrev measured : ℤ → ℕ → Selected ℕ
measured batch median = record {
  batch_size = batch;
  repetitions = some (pos 5);
  application_loss_pct_max = some 20;
  saturated = some true;
  processed_pps_median = median;
  processed_pps_min = median;
  processed_pps_max = median;
  run_ids = some "a|b|c|d|e";
  work_ns = some (pos 5000);
}

abbrev profiled : ℕ → ℕ → ℕ → ProfileMedians ℕ
profiled batch syscalls cycles = record {
  profiled_batch_size = some batch;
  receive_syscalls_per_packet = some syscalls;
  cycles_per_packet = some cycles;
}

abbrev medians : List (String × ProfileMedians ℕ)
medians =
    ("baseline", profiled 1 1000 900)
    ∷ ("batched", profiled 64 16 700)
    ∷ ("threaded", profiled 64 16 2000)
    ∷ []

abbrev clean : String → Option ℤ → RunRow
clean id overflow = record { run_id = id; ingress_loss = some (pos 0); spsc_overflow = overflow }

-- The overflow of one repetition is not known.
abbrev runs : Runs
runs = record {
  rows =
      clean "a" (some (pos 0))
      ∷ clean "b" none
      ∷ clean "c" (some (pos 0))
      ∷ clean "x" (some (pos 7))
      ∷ clean "d" (some (pos 0))
      ∷ clean "e" (some (pos 0))
      ∷ [];
  has_ingress_loss = true;
  has_spsc_overflow = true;
}

abbrev batched_row : EvidenceRow ℕ
batched_row = record {
  candidate = "batched";
  improvement_ratio = 150;
  profile_mechanism_passes = true;
  claim_passes = true;
  claim_blockers = [];
  resume_claim = some (sentence_of floats runs (measured (pos 64) 300) "batched" 150);
}

evaluate_batched :
    evaluate floats runs medians (measured (pos 1) 200) (measured (pos 64) 300) "batched"
    ≡ ok batched_row
unfolding evaluate mechanism_blockers throughput_blockers
evaluate_batched = refl

evaluate_iff_example :
    (batched_row.resume_claim
      ≡ some (sentence_of floats runs (measured (pos 64) 300) "batched" 150))
    ↔ (IsFaster floats (measured (pos 1) 200) (measured (pos 64) 300) 150
        × IsProfiled floats runs
            (lookup "baseline" medians)
            (lookup "batched" medians)
            (measured (pos 1) 200)
            (measured (pos 64) 300)
            "batched")
evaluate_iff_example =
    evaluate_iff floats runs medians (measured (pos 1) 200) (measured (pos 64) 300) "batched"
      batched_row evaluate_batched

-- The missing overflow does not keep the threaded receiver from its claim.
generate_both :
    generate floats runs
      (("baseline", measured (pos 1) 200)
        ∷ ("batched", measured (pos 64) 300)
        ∷ ("threaded", measured (pos 64) 300)
        ∷ [])
      medians
    ≡ ok (
        batched_row
        ∷ record batched_row {
          candidate = "threaded";
          resume_claim = some (sentence_of floats runs (measured (pos 64) 300) "threaded" 150);
        }
        ∷ [])
unfolding generate mechanism_blockers throughput_blockers split_bars
generate_both = refl

column_blockers_iff_example :
    (column_blockers {F = ℕ} "spsc_overflow" "queue overflow" true (none ∷ some (pos 0) ∷ []) ≡ [])
    ↔ IsClear true (none ∷ some (pos 0) ∷ [])
column_blockers_iff_example =
    column_blockers_iff {F = ℕ} "spsc_overflow" "queue overflow" true none (some (pos 0) ∷ [])
