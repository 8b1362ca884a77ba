-- ===== src/Evidence/Claim.antt =====
-- `generate` (analysis/generate_claim_evidence.py), from the selected configurations and the medians of the profiles to
-- the rows of its output. Columns that copy a cell of these, and the words of the claim, are left out.
pub mod Supported
pub mod Made
use net_latency_lab.Base.{
  String, Bool, true, false, not, ◌&&◌, Option, none, some, List, [], ◌∷◌, ◌++◌, if◌then◌else◌,
}
use net_latency_lab.Base.Int.{ℤ}
use net_latency_lab.Python.Error.{Error, Result, ok, err, ◌>>=◌}
use net_latency_lab.Verdict.State.{lookup}
use net_latency_lab.Evidence.Blockers.{
  Arithmetic, Selected, ProfileMedians, Runs, Blocker, int_or_zero, throughput_blockers,
  mechanism_blockers,
}

-- What the sentence of a claim is about: the receiver, the improvement and the budget of work.
pub record Sentence (F : Type 0) : Type 0 where
  pub about : String
  pub ratio : F
  pub budget_ns : ℤ

pub record EvidenceRow (F : Type 0) : Type 0 where
  pub candidate : String
  pub improvement_ratio : F
  pub profile_mechanism_passes : Bool
  pub claim_passes : Bool
  pub claim_blockers : List (Blocker F)
  -- none where the source has an empty text
  pub resume_claim : Option (Sentence F)

abbrev pub is_none_left {ℓ} : {A : Type ℓ} → List A → Bool
is_none_left [] = true
is_none_left (x ∷ xs) = false

abbrev pub required_row {ℓ} : {A : Type ℓ} → String → Option A → Result A
required_row name none = err (Error.key_error name)
required_row name (some row) = ok row

abbrev pub required_ratio : {F : Type 0} → Option F → Result F
required_ratio none = err Error.zero_division
required_ratio (some f) = ok f

module _ {F : Type 0} (floats : Arithmetic F) (runs : Runs) where
  -- Both profiles must be there.
  abbrev pub mechanism_of :
      Option (ProfileMedians F)
      → Option (ProfileMedians F)
      → Selected F
      → Selected F
      → String
      → List (Blocker F)
  mechanism_of (some base) (some cand) baseline_row candidate_row receiver =
      mechanism_blockers floats base cand baseline_row candidate_row receiver runs
  mechanism_of (some base) none baseline_row candidate_row receiver =
      Blocker.no_profile receiver ∷ []
  mechanism_of none cand baseline_row candidate_row receiver = Blocker.no_profile receiver ∷ []

  abbrev pub evidence_of :
      Selected F → String → F → List (Blocker F) → List (Blocker F) → EvidenceRow F
  evidence_of candidate_row receiver improvement blockers mechanism =
      let passes = is_none_left blockers && is_none_left mechanism in
      record {
        candidate = receiver;
        improvement_ratio = improvement;
        profile_mechanism_passes = is_none_left mechanism;
        claim_passes = passes;
        claim_blockers = blockers ++ mechanism;
        resume_claim =
            if passes
            then some (record {
              about = receiver;
              ratio = improvement;
              budget_ns = int_or_zero candidate_row.work_ns;
            })
            else none;
      }

  -- One round of the loop over the receivers
  unfoldable pub evaluate :
      List (String × ProfileMedians F) → Selected F → Selected F → String → Result (EvidenceRow F)
  evaluate medians baseline_row candidate_row receiver = do
    improvement ←
        required_ratio
          (floats.divided candidate_row.processed_pps_median baseline_row.processed_pps_median)
    ok (
        evidence_of candidate_row receiver improvement
          (throughput_blockers floats baseline_row candidate_row improvement)
          (mechanism_of (lookup "baseline" medians) (lookup receiver medians) baseline_row
            candidate_row receiver))

  abbrev pub evaluate_selected :
      List (String × Selected F)
      → List (String × ProfileMedians F)
      → Selected F
      → String
      → Result (EvidenceRow F)
  evaluate_selected selected medians baseline_row receiver =
      required_row receiver (lookup receiver selected) >>= λ row.
      evaluate medians baseline_row row receiver

  unfoldable pub generate :
      List (String × Selected F) → List (String × ProfileMedians F) → Result (List (EvidenceRow F))
  unfolding evaluate
  generate selected medians = do
    baseline_row ← required_row "baseline" (lookup "baseline" selected)
    batched ← evaluate_selected selected medians baseline_row "batched"
    threaded ← evaluate_selected selected medians baseline_row "threaded"
    ok (batched ∷ threaded ∷ [])
