-- ===== src/Evidence/Blockers.antt =====
-- `_throughput_blockers`, `_mechanism_blockers` and `_overlap_blockers`
-- (analysis/generate_claim_evidence.py): what speaks against a claim. A blocker is a constructor that carries what its
-- text shows. Rows of data frames are records, with options for cells that may be missing.
pub mod Absent
use Prim.Native.Char.{Char, code}
use Prim.Native.String.{[] as end_of_text, ◌∷◌ as char_before}
use net_latency_lab.Base.{
  ℕ, String, Bool, true, false, not, ◌&&◌, ◌||◌, Option, none, some, List, [], ◌∷◌, ◌++◌, map,
  filter, any, length, ◌==◌, if◌then◌else◌,
}
use net_latency_lab.Base.Int.{ℤ, pos, negsuc, leb_ℤ, eqb_ℤ}
use net_latency_lab.Python.Paths.{push}
use net_latency_lab.Verdict.Notes.{note_if}
use text.Mathlib.Text.{◌==◌ as same}

-- What the source does with floats.
pub record Arithmetic (F : Type 0) : Type 0 where
  pub is_nan : F → Bool
  -- `f > MAX_APPLICATION_LOSS_PCT` and `f < MIN_IMPROVEMENT_RATIO`
  pub is_lossy : F → Bool
  pub is_small : F → Bool
  -- `f <= g`
  pub at_most : F → F → Bool
  -- `f > MAX_CANDIDATE_SYSCALL_FRACTION * g`
  pub exceeds_fraction : F → F → Bool
  -- `int(f)`
  pub truncated : F → ℤ
  -- `f / g`, none if it raises ZeroDivisionError
  pub divided : F → F → Option F

-- A selected configuration
pub record Selected (F : Type 0) : Type 0 where
  pub batch_size : ℤ
  pub repetitions : Option ℤ
  pub application_loss_pct_max : Option F
  pub saturated : Option Bool
  pub processed_pps_median : F
  pub processed_pps_min : F
  pub processed_pps_max : F
  pub run_ids : Option String
  pub work_ns : Option ℤ

-- The medians of a receiver's profiles
pub record ProfileMedians (F : Type 0) : Type 0 where
  pub profiled_batch_size : Option F
  pub receive_syscalls_per_packet : Option F
  pub cycles_per_packet : Option F

pub record RunRow : Type 0 where
  pub run_id : String
  pub ingress_loss : Option ℤ
  pub spsc_overflow : Option ℤ

-- The per-run rows, and which of the two columns the frame has
pub record Runs : Type 0 where
  pub rows : List RunRow
  pub has_ingress_loss : Bool
  pub has_spsc_overflow : Bool

pub data Role : Type 0 where
  of_baseline of_candidate : Role

pub data Blocker (F : Type 0) : Type 0 where
  few_repetitions lossy unsaturated : Role → Blocker F
  small_effect : F → Blocker F
  ranges_overlap : Blocker F
  other_batch : Role → ℤ → ℤ → Blocker F
  syscalls_unavailable syscalls_not_reduced : Blocker F
  cycles_unavailable cycles_not_reduced : Blocker F
  unmatched : ℕ → Blocker F
  column_unavailable column_shows : String → Blocker F
  no_profile : String → Blocker F

abbrev pub required_repetitions : ℕ
required_repetitions = 5

abbrev pub int_or_zero : Option ℤ → ℤ
int_or_zero none = pos 0
int_or_zero (some n) = n

abbrev pub is_saturated : Option Bool → Bool
is_saturated none = false
is_saturated (some b) = b

-- `text.split("|")`
unfoldable pub split_bars : String → List String
split_bars end_of_text = "" ∷ []
split_bars (char_before c text) =
    let rest = split_bars text in if code c == 124 then "" ∷ rest else push c rest

abbrev pub identifiers_of : Option String → List String
identifiers_of none = "" ∷ []
identifiers_of (some text) = split_bars text

unfoldable pub selected_rows : List String → List RunRow → List RunRow
selected_rows identifiers rows = filter (λ row. any (λ id. same id row.run_id) identifiers) rows

-- `fillna(-1)`
abbrev pub filled : Option ℤ → ℤ
filled none = negsuc 0
filled (some n) = n

abbrev pub greater : ℤ → ℤ → ℤ
greater a b = if leb_ℤ a b then b else a

-- `column.fillna(-1).max()`, of a column that is not empty
unfoldable pub column_max : List (Option ℤ) → ℤ
column_max [] = pos 0
column_max (cell ∷ []) = filled cell
column_max (cell ∷ next ∷ cells) = greater (filled cell) (column_max (next ∷ cells))

module _ {F : Type 0} where
  unfoldable pub column_blockers : String → String → Bool → List (Option ℤ) → List (Blocker F)
  unfolding column_max
  column_blockers column description present cells =
      if not present
      then Blocker.column_unavailable column ∷ []
      else note_if (not (eqb_ℤ (column_max cells) (pos 0))) (Blocker.column_shows description)

  -- Both columns of the rows that were matched
  unfoldable pub columns_blockers : Runs → List RunRow → List (Blocker F)
  unfolding column_blockers
  columns_blockers runs rows =
      column_blockers "ingress_loss" "kernel ingress loss" runs.has_ingress_loss
        (map (λ (row : RunRow). row.ingress_loss) rows)
      ++ column_blockers "spsc_overflow" "queue overflow" runs.has_spsc_overflow
          (map (λ (row : RunRow). row.spsc_overflow) rows)

  unfoldable pub overlap_blockers : Selected F → Runs → List (Blocker F)
  unfolding columns_blockers selected_rows
  overlap_blockers candidate_row runs =
      let rows = selected_rows (identifiers_of candidate_row.run_ids) runs.rows in
      if not (length rows == required_repetitions)
      then Blocker.unmatched (length rows) ∷ []
      else columns_blockers runs rows

module _ {F : Type 0} (floats : Arithmetic F) where
  -- `_finite(value)`, with the value
  abbrev pub finite : Option F → Option F
  finite none = none
  finite (some f) = if floats.is_nan f then none else some f

  abbrev pub is_lossy_cell : Option F → Bool
  is_lossy_cell none = true
  is_lossy_cell (some f) = floats.is_lossy f

  unfoldable pub role_blockers : Role → Selected F → List (Blocker F)
  role_blockers role row =
      note_if (not (eqb_ℤ (int_or_zero row.repetitions) (pos required_repetitions)))
        (Blocker.few_repetitions role)
      ++ note_if (is_lossy_cell (finite row.application_loss_pct_max)) (Blocker.lossy role)
      ++ note_if (not (is_saturated row.saturated)) (Blocker.unsaturated role)

  unfoldable pub throughput_blockers : Selected F → Selected F → F → List (Blocker F)
  unfolding role_blockers
  throughput_blockers baseline_row candidate_row improvement =
      role_blockers Role.of_baseline baseline_row
      ++ role_blockers Role.of_candidate candidate_row
      ++ note_if (floats.is_small improvement) (Blocker.small_effect improvement)
      ++ note_if (floats.at_most candidate_row.processed_pps_min baseline_row.processed_pps_max)
          Blocker.ranges_overlap

  abbrev pub batch_note : Role → Option F → ℤ → List (Blocker F)
  batch_note role none batch = []
  batch_note role (some f) batch =
      note_if (not (eqb_ℤ (floats.truncated f) batch))
        (Blocker.other_batch role (floats.truncated f) batch)

  -- Two measurements, of which the second must be less than the first by a test.
  abbrev pub reduction_note :
      Blocker F → Blocker F → (F → F → Bool) → Option F → Option F → List (Blocker F)
  reduction_note unavailable not_reduced fails (some base) (some cand) =
      note_if (fails cand base) not_reduced
  reduction_note unavailable not_reduced fails (some base) none = unavailable ∷ []
  reduction_note unavailable not_reduced fails none cand = unavailable ∷ []

  unfoldable pub syscall_blockers : ProfileMedians F → ProfileMedians F → List (Blocker F)
  syscall_blockers base cand =
      reduction_note Blocker.syscalls_unavailable Blocker.syscalls_not_reduced
        floats.exceeds_fraction (finite base.receive_syscalls_per_packet)
        (finite cand.receive_syscalls_per_packet)

  -- `candidate >= base`
  unfoldable pub cycle_blockers : ProfileMedians F → ProfileMedians F → List (Blocker F)
  cycle_blockers base cand =
      reduction_note Blocker.cycles_unavailable Blocker.cycles_not_reduced
        (λ c b. floats.at_most b c) (finite base.cycles_per_packet) (finite cand.cycles_per_packet)

  unfoldable pub mechanism_blockers :
      ProfileMedians F
      → ProfileMedians F
      → Selected F
      → Selected F
      → String
      → Runs
      → List (Blocker F)
  unfolding syscall_blockers cycle_blockers overlap_blockers
  mechanism_blockers base cand baseline_row candidate_row receiver runs =
      batch_note Role.of_baseline (finite base.profiled_batch_size) baseline_row.batch_size
      ++ batch_note Role.of_candidate (finite cand.profiled_batch_size) candidate_row.batch_size
      ++ syscall_blockers base cand
      ++ (if same receiver "threaded"
          then overlap_blockers candidate_row runs
          else cycle_blockers base cand)
