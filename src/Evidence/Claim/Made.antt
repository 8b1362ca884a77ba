-- ===== src/Evidence/Claim/Made.antt =====
-- The sentence of a claim (analysis/generate_claim_evidence.py).
use net_latency_lab.Base.{String, Option, none, some, List, [], ◌∷◌, ◌≡◌, refl, ◌↔◌}
use net_latency_lab.Python.Error.{ok, >>=-BothReturn}
use net_latency_lab.Config.Checked.{ok_inj}
use net_latency_lab.Verdict.State.{lookup}
use net_latency_lab.Evidence.Blockers.{
  Arithmetic, Selected, ProfileMedians, Runs, Blocker, int_or_zero, throughput_blockers,
}
use net_latency_lab.Evidence.Claim.{
  Sentence, EvidenceRow, required_ratio, mechanism_of, evidence_of, evaluate,
}
use net_latency_lab.Evidence.Claim.Supported.{
  IsFaster, throughput_blockers_iff, HasMechanism, mechanism_blockers_iff,
}

module _ {F : Type 0} (floats : Arithmetic F) (runs : Runs) where
  abbrev pub sentence_of : Selected F → String → F → Sentence F
  sentence_of candidate_row receiver improvement = record {
    about = receiver;
    ratio = improvement;
    budget_ns = int_or_zero candidate_row.work_ns;
  }

  evidence_of_iff :
      (candidate_row : Selected F) (receiver : String) (improvement : F)
      (blockers mechanism : List (Blocker F))
      → ((evidence_of floats runs candidate_row receiver improvement blockers
            mechanism).resume_claim
          ≡ some (sentence_of candidate_row receiver improvement))
        ↔ ((blockers ≡ []) × (mechanism ≡ []))
  evidence_of_iff candidate_row receiver improvement [] [] = (λ h. (refl, refl), λ h. refl)
  evidence_of_iff candidate_row receiver improvement [] (m ∷ ms) = (λ h. cc, λ h. cc (h.1))
  evidence_of_iff candidate_row receiver improvement (b ∷ bs) ms = (λ h. cc, λ h. cc (h.0))

  -- Both profiles are there and show the mechanism
  abbrev pub IsProfiled :
      Option (ProfileMedians F)
      → Option (ProfileMedians F)
      → Selected F
      → Selected F
      → String
      → Type 0
  IsProfiled (some base) (some cand) baseline_row candidate_row receiver =
      HasMechanism floats base cand baseline_row candidate_row receiver runs
  IsProfiled (some base) none baseline_row candidate_row receiver = ⊥
  IsProfiled none cand baseline_row candidate_row receiver = ⊥

  mechanism_of_iff :
      (base cand : Option (ProfileMedians F)) (baseline_row candidate_row : Selected F)
      (receiver : String)
      → (mechanism_of floats runs base cand baseline_row candidate_row receiver ≡ [])
        ↔ IsProfiled base cand baseline_row candidate_row receiver
  mechanism_of_iff (some base) (some cand) baseline_row candidate_row receiver =
      mechanism_blockers_iff floats base cand baseline_row candidate_row receiver runs
  mechanism_of_iff (some base) none baseline_row candidate_row receiver = (λ h. cc, λ h. absurd h)
  mechanism_of_iff none cand baseline_row candidate_row receiver = (λ h. cc, λ h. absurd h)

  -- Where a row of the evidence is made for a receiver, it has the sentence of the claim exactly when: the baseline
  -- and the candidate have five repetitions each, a loss within the limit and a higher rate that they lost;
  -- the improvement is not too small and the ranges of the repetitions do not meet; and both receivers have
  -- a profile, of the batch size that was measured if it names one, with fewer system calls per packet, and
  -- with fewer cycles per packet or, for the threaded receiver, five repetitions found in the runs whose two
  -- columns of losses are clear.
  pub evaluate_iff :
      (medians : List (String × ProfileMedians F)) (baseline_row candidate_row : Selected F)
      (receiver : String) (row : EvidenceRow F)
      → evaluate floats runs medians baseline_row candidate_row receiver ≡ ok row
      → (row.resume_claim ≡ some (sentence_of candidate_row receiver row.improvement_ratio)) ↔ (
          IsFaster floats baseline_row candidate_row row.improvement_ratio
          × IsProfiled
              (lookup "baseline" medians)
              (lookup receiver medians)
              baseline_row
              candidate_row
              receiver)
  unfolding evaluate
  evaluate_iff medians baseline_row candidate_row receiver row h =
      let a =
        >>=-BothReturn
          (required_ratio
            (floats.divided candidate_row.processed_pps_median baseline_row.processed_pps_median))
          _ h in
      let blockers = throughput_blockers floats baseline_row candidate_row a.value in
      let base = lookup "baseline" medians in
      let cand = lookup receiver medians in
      let mechanism = mechanism_of floats runs base cand baseline_row candidate_row receiver in
      let made = evidence_of_iff candidate_row receiver a.value blockers mechanism in
      let faster = throughput_blockers_iff floats baseline_row candidate_row a.value in
      let profiled = mechanism_of_iff base cand baseline_row candidate_row receiver in
      rw (← ok_inj a.second) (
        λ claimed. (faster.0 (made.0 claimed).0, profiled.0 (made.0 claimed).1),
        λ supported. made.1 (faster.1 supported.0, profiled.1 supported.1),
      )
