-- ===== src/Evidence/Claim/Supported.antt =====
-- When `generate` (analysis/generate_claim_evidence.py) makes a claim.
use net_latency_lab.Base.{
  String, Bool, true, false, not, Option, none, some, List, [], ◌∷◌, map, length, ◌≡◌, refl, ◌↔◌,
  ◌==◌, ==_iff, inl, inr, Bool-cases, if◌then◌else◌, arith,
}
use net_latency_lab.Base.Int.{ℤ, pos, differs_iff}
use net_latency_lab.Verdict.Notes.{note_if_iff, append-both_iff}
use net_latency_lab.Verdict.Qualification.Groups.{not_iff}
use net_latency_lab.Evidence.Blockers.{
  Arithmetic, Selected, ProfileMedians, RunRow, Runs, Role, Blocker, required_repetitions,
  int_or_zero, is_saturated, identifiers_of, selected_rows, columns_blockers, overlap_blockers,
  finite, is_lossy_cell, role_blockers, throughput_blockers, batch_note, reduction_note,
  syscall_blockers, cycle_blockers, mechanism_blockers,
}
use net_latency_lab.Evidence.Blockers.Absent.{IsClear, column_blockers_iff}
use text.Mathlib.Text.{◌==◌ as same}

-- The five repetitions of the candidate, each found and with a clean handoff
abbrev pub AreClear : Runs → List RunRow → Type 0
AreClear runs rows =
    IsClear runs.has_ingress_loss (map (λ (row : RunRow). row.ingress_loss) rows)
    × IsClear runs.has_spsc_overflow (map (λ (row : RunRow). row.spsc_overflow) rows)

module _ {F : Type 0} where
  rows_iff :
      (runs : Runs) (rows : List RunRow)
      → ((if not (length rows == required_repetitions)
            then Blocker.unmatched (length rows) ∷ []
            else columns_blockers {F = F} runs rows)
          ≡ [])
        ↔ ((length rows ≡ 5) × AreClear runs rows)
  unfolding columns_blockers
  rows_iff runs [] = (λ h. cc, λ h. absurd (omega (arith, h.0)))
  rows_iff runs (row ∷ rows) =
      let both =
        append-both_iff
          (column_blockers_iff {F = F} "ingress_loss" "kernel ingress loss" runs.has_ingress_loss
            row.ingress_loss (map (λ (r : RunRow). r.ingress_loss) rows))
          (column_blockers_iff {F = F} "spsc_overflow" "queue overflow" runs.has_spsc_overflow
            row.spsc_overflow (map (λ (r : RunRow). r.spsc_overflow) rows)) in
      let five = ==_iff (length (row ∷ rows)) 5 in
      elim (Bool-cases (length (row ∷ rows) == 5)) [
        | inl is_five ↦ rw is_five (λ h. (five.0 is_five, both.0 h), λ h. both.1 h.1)
        | inr other ↦ rw other (λ h. cc, λ h. cc (other, five.1 h.0))
      ]

  abbrev pub HasOverlap : Selected F → Runs → Type 0
  HasOverlap candidate_row runs =
      let rows = selected_rows (identifiers_of candidate_row.run_ids) runs.rows in
      (length rows ≡ 5) × AreClear runs rows

  overlap_blockers_iff :
      (candidate_row : Selected F) (runs : Runs)
      → (overlap_blockers candidate_row runs ≡ []) ↔ HasOverlap candidate_row runs
  unfolding overlap_blockers
  overlap_blockers_iff candidate_row runs =
      rows_iff runs (selected_rows (identifiers_of candidate_row.run_ids) runs.rows)

module _ {F : Type 0} (floats : Arithmetic F) where
  -- Five repetitions, a loss within the limit, and a higher rate that was lost
  abbrev pub IsMeasured : Selected F → Type 0
  IsMeasured row =
      ((int_or_zero row.repetitions ≡ pos 5)
        × (is_lossy_cell floats (finite floats row.application_loss_pct_max) ≡ false))
      × (is_saturated row.saturated ≡ true)

  role_blockers_iff :
      (role : Role) (row : Selected F) → (role_blockers floats role row ≡ []) ↔ IsMeasured row
  unfolding role_blockers
  role_blockers_iff role row =
      append-both_iff
        (append-both_iff (note_if_iff _ (differs_iff (int_or_zero row.repetitions) (pos 5)))
          (note_if_iff _ (λ h. h, λ h. h)))
        (note_if_iff _ (not_iff (is_saturated row.saturated)))

  -- Both are measured, the improvement is large enough, and the ranges do not meet
  abbrev pub IsFaster : Selected F → Selected F → F → Type 0
  IsFaster baseline_row candidate_row improvement =
      ((IsMeasured baseline_row × IsMeasured candidate_row) × (floats.is_small improvement ≡ false))
      × (floats.at_most candidate_row.processed_pps_min baseline_row.processed_pps_max ≡ false)

  pub throughput_blockers_iff :
      (baseline_row candidate_row : Selected F) (improvement : F)
      → (throughput_blockers floats baseline_row candidate_row improvement ≡ [])
        ↔ IsFaster baseline_row candidate_row improvement
  unfolding throughput_blockers
  throughput_blockers_iff baseline_row candidate_row improvement =
      append-both_iff
        (append-both_iff
          (append-both_iff (role_blockers_iff Role.of_baseline baseline_row)
            (role_blockers_iff Role.of_candidate candidate_row))
          (note_if_iff _ (λ h. h, λ h. h)))
        (note_if_iff _ (λ h. h, λ h. h))

  -- The profile was taken at the batch size that was measured, where it has one
  abbrev pub AgreesOn : ℤ → Option F → Type 0
  AgreesOn batch none = Unit {0}
  AgreesOn batch (some f) = floats.truncated f ≡ batch

  batch_note_iff :
      (role : Role) (cell : Option F) (batch : ℤ)
      → (batch_note floats role cell batch ≡ []) ↔ AgreesOn batch cell
  batch_note_iff role none batch = (λ h. tt, λ h. refl)
  batch_note_iff role (some f) batch = note_if_iff _ (differs_iff (floats.truncated f) batch)

  -- Both were measured, and the candidate passes the test
  abbrev pub IsReduced : (F → F → Bool) → Option F → Option F → Type 0
  IsReduced fails (some base) (some cand) = fails cand base ≡ false
  IsReduced fails (some base) none = ⊥
  IsReduced fails none cand = ⊥

  reduction_note_iff :
      (unavailable not_reduced : Blocker F) (fails : F → F → Bool) (base cand : Option F)
      → (reduction_note floats unavailable not_reduced fails base cand ≡ [])
        ↔ IsReduced fails base cand
  reduction_note_iff unavailable not_reduced fails (some base) (some cand) =
      note_if_iff _ (λ h. h, λ h. h)
  reduction_note_iff unavailable not_reduced fails (some base) none = (λ h. cc, λ h. absurd h)
  reduction_note_iff unavailable not_reduced fails none cand = (λ h. cc, λ h. absurd h)

  -- The threaded receiver must overlap, any other must need fewer cycles
  abbrev pub HasOwnMechanism :
      Bool → ProfileMedians F → ProfileMedians F → Selected F → Runs → Type 0
  HasOwnMechanism true base cand candidate_row runs = HasOverlap candidate_row runs
  HasOwnMechanism false base cand candidate_row runs =
      IsReduced (λ c b. floats.at_most b c) (finite floats base.cycles_per_packet)
        (finite floats cand.cycles_per_packet)

  abbrev pub HasMechanism :
      ProfileMedians F → ProfileMedians F → Selected F → Selected F → String → Runs → Type 0
  HasMechanism base cand baseline_row candidate_row receiver runs =
      ((AgreesOn baseline_row.batch_size (finite floats base.profiled_batch_size)
          × AgreesOn candidate_row.batch_size (finite floats cand.profiled_batch_size))
        × IsReduced floats.exceeds_fraction (finite floats base.receive_syscalls_per_packet)
            (finite floats cand.receive_syscalls_per_packet))
      × HasOwnMechanism (same receiver "threaded") base cand candidate_row runs

  own_iff :
      (threaded : Bool) (base cand : ProfileMedians F) (candidate_row : Selected F) (runs : Runs)
      → ((if threaded then overlap_blockers candidate_row runs else cycle_blockers floats base cand)
          ≡ [])
        ↔ HasOwnMechanism threaded base cand candidate_row runs
  unfolding cycle_blockers
  own_iff true base cand candidate_row runs = overlap_blockers_iff candidate_row runs
  own_iff false base cand candidate_row runs = reduction_note_iff _ _ _ _ _

  pub mechanism_blockers_iff :
      (base cand : ProfileMedians F) (baseline_row candidate_row : Selected F) (receiver : String)
      (runs : Runs)
      → (mechanism_blockers floats base cand baseline_row candidate_row receiver runs ≡ [])
        ↔ HasMechanism base cand baseline_row candidate_row receiver runs
  unfolding mechanism_blockers syscall_blockers
  mechanism_blockers_iff base cand baseline_row candidate_row receiver runs =
      append-both_iff
        (append-both_iff
          (append-both_iff
            (batch_note_iff Role.of_baseline (finite floats base.profiled_batch_size) _)
            (batch_note_iff Role.of_candidate (finite floats cand.profiled_batch_size) _))
          (reduction_note_iff _ _ _ _ _))
        (own_iff (same receiver "threaded") base cand candidate_row runs)
