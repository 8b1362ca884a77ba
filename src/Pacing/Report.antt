-- ===== src/Pacing/Report.antt =====
-- `analyze_pacing_trace` (main.py), from the rows of the CSV file on: each row is the integers of its three columns.
pub mod Conserved
pub mod Gaps
pub mod Ordered
pub mod Windows
pub mod Passed
use net_latency_lab.Base.{
  ℕ, zero, suc, ◌+◌, ◌-◌, ◌*◌, ◌/◌, max, String, Bool, true, false, not, ◌&&◌, ◌||◌, List, [], ◌∷◌,
  ◌++◌, length, ltb, leb, ◌==◌, if◌then◌else◌,
}
use net_latency_lab.Base.Int.{ℤ, pos, ◌*ℤ◌, ltb_ℤ, leb_ℤ, eqb_ℤ, pos_part}
use net_latency_lab.Python.Error.{Error, Result, ok, err, raise_if, ◌>>=◌, ◌>>◌}
use net_latency_lab.Pacing.Rank.{nearest_rank}
use net_latency_lab.Verdict.Notes.{note_if}

-- One record of the trace: times in nanoseconds, and packets.
pub record PacingRecord : Type 0 where
  pub actual : ℕ
  pub scheduled : ℕ
  pub count : ℕ

-- A row whose times are negative or whose count is not positive is refused.
unfoldable pub read_row : ℤ × ℤ × ℤ → Result PacingRecord
read_row (actual, scheduled, count) = do
  raise_if (ltb_ℤ actual (pos 0) || ltb_ℤ scheduled (pos 0) || leb_ℤ count (pos 0))
      (Error.value_error "Pacing trace contains an invalid record")
  ok (record { actual = pos_part actual; scheduled = pos_part scheduled; count = pos_part count })

unfoldable pub read_rows : List (ℤ × ℤ × ℤ) → Result (List PacingRecord)
read_rows [] = ok []
read_rows (row ∷ rows) =
    let rest = read_rows rows in read_row row >>= λ r. rest >>= λ rs. ok (r ∷ rs)

-- The order of the tuples, for `records.sort()`
abbrev pub precedes : PacingRecord → PacingRecord → Bool
precedes a b =
    ltb a.actual b.actual
    || (a.actual == b.actual
        && (ltb a.scheduled b.scheduled || (a.scheduled == b.scheduled && leb a.count b.count)))

unfoldable pub insert_record : PacingRecord → List PacingRecord → List PacingRecord
insert_record r [] = r ∷ []
insert_record r (s ∷ records) =
    let rest = insert_record r records in if precedes r s then r ∷ s ∷ records else s ∷ rest

unfoldable pub sorted_records : List PacingRecord → List PacingRecord
sorted_records [] = []
sorted_records (r ∷ records) = insert_record r (sorted_records records)

abbrev pub edge_ns : ℕ
edge_ns = 100_000_000

abbrev pub window_ns : ℕ
window_ns = 1_000_000

-- `[0] * window_count`
abbrev pub zeros : ℕ → List ℕ
zeros zero = []
zeros (suc n) = 0 ∷ zeros n

-- `counts[index] += count`
abbrev pub add_at : ℕ → ℕ → List ℕ → List ℕ
add_at index count [] = []
add_at zero count (c ∷ counts) = (c + count) ∷ counts
add_at (suc index) count (c ∷ counts) = c ∷ add_at index count counts

abbrev pub is_interior : ℕ → ℕ → PacingRecord → Bool
is_interior interior_start window_count r =
    leb interior_start r.actual && ltb r.actual (interior_start + window_count * window_ns)

-- The loop over the records: the counts of the windows, and the records inside them.
unfoldable pub fill_windows : ℕ → ℕ → List ℕ → List PacingRecord → List ℕ × List PacingRecord
fill_windows interior_start window_count counts [] = (counts, [])
fill_windows interior_start window_count counts (r ∷ records) =
    let inside = is_interior interior_start window_count r in
    let filled =
      if inside then add_at ((r.actual - interior_start) / window_ns) r.count counts else counts in
    let (final, interior) = fill_windows interior_start window_count filled records in
    (final, if inside then r ∷ interior else interior)

-- `max(gaps, default=0)` of the gaps between neighbours. The records are sorted, so the gaps are not negative.
unfoldable pub max_gap : List PacingRecord → ℕ
max_gap [] = 0
max_gap (left ∷ []) = 0
max_gap (left ∷ right ∷ records) = max (right.actual - left.actual) (max_gap (right ∷ records))

-- What of a gap the schedule does not explain.
unfoldable pub max_unexplained_gap : List PacingRecord → ℕ
max_unexplained_gap [] = 0
max_unexplained_gap (left ∷ []) = 0
max_unexplained_gap (left ∷ right ∷ records) =
    max (right.actual - left.actual - (right.scheduled - left.scheduled))
      (max_unexplained_gap (right ∷ records))

unfoldable pub total_packets : List PacingRecord → ℕ
total_packets [] = 0
total_packets (r ∷ records) = r.count + total_packets records

-- The comparisons in floating point: the ranks of the two percentiles in a sample of so many, and whether they leave
-- the band of 10 % around the target of `rate_pps / 1000`.
pub record Percentiles : Type 0 where
  pub rank_p1 : ℕ → ℕ
  pub rank_p99 : ℕ → ℕ
  pub is_outside_band : ℕ → ℕ → ℕ → Bool

-- What the function reads of the statistics of the sender.
pub record Schedule : Type 0 where
  pub start_mono_ns : ℕ
  pub scheduled_end_mono_ns : ℕ
  pub successful_sends : ℤ

pub record PacingReport : Type 0 where
  pub records : ℕ
  pub trace_packets : ℕ
  pub window_count : ℕ
  pub p1_packets : ℕ
  pub p99_packets : ℕ
  pub max_enqueue_gap_ns : ℕ
  pub max_unexplained_enqueue_gap_ns : ℕ
  pub passed : Bool
  pub reasons : List String

-- `nearest_rank(counts, …) if counts else 0`
abbrev pub percentile_or_zero : (ℕ → ℕ) → List ℕ → Result ℕ
percentile_or_zero rank [] = ok 0
percentile_or_zero rank (c ∷ counts) = nearest_rank rank (c ∷ counts)

abbrev pub is_empty {ℓ} : {A : Type ℓ} → List A → Bool
is_empty [] = true
is_empty (x ∷ xs) = false

unfoldable pub pacing_reasons_of :
    Percentiles → Schedule → ℕ → ℤ → ℕ → List ℕ → ℕ → ℕ → ℕ → ℕ → List String
pacing_reasons_of percentiles sender rate_pps batch_window_us window_count counts trace_packets p1
      p99 unexplained =
    note_if (window_count == 0) "pacing interval is too short after edge exclusion"
    ++ note_if (not (eqb_ℤ (pos trace_packets) sender.successful_sends))
        "pacing trace packet count does not reconcile with successful sends"
    ++ note_if (not (is_empty counts) && percentiles.is_outside_band rate_pps p1 p99)
        "pacing trace 1 ms p1/p99 is outside the 90-110% target band"
    ++ note_if (ltb_ℤ (pos 2000 *ℤ batch_window_us) (pos unexplained))
        "pacing trace has an unexplained enqueue gap over two batch windows"

-- The interval less its two edges, in windows; it has none if it is shorter than the edges.
abbrev pub window_count_of : Schedule → ℕ
window_count_of sender =
    (sender.scheduled_end_mono_ns - edge_ns - (sender.start_mono_ns + edge_ns)) / window_ns

abbrev pub windows_of : Schedule → List PacingRecord → List ℕ × List PacingRecord
windows_of sender records =
    fill_windows (sender.start_mono_ns + edge_ns) (window_count_of sender)
      (zeros (window_count_of sender)) records

-- The dictionary that the function returns, from the two percentiles.
abbrev pub report_with : Percentiles → Schedule → ℕ → ℤ → List PacingRecord → ℕ → ℕ → PacingReport
report_with percentiles sender rate_pps batch_window_us records p1 p99 =
    let (counts, interior) = windows_of sender records in
    let reasons =
      pacing_reasons_of percentiles sender rate_pps batch_window_us (window_count_of sender) counts
        (total_packets records) p1 p99 (max_unexplained_gap interior) in
    record {
      records = length records;
      trace_packets = total_packets records;
      window_count = window_count_of sender;
      p1_packets = p1;
      p99_packets = p99;
      max_enqueue_gap_ns = max_gap interior;
      max_unexplained_enqueue_gap_ns = max_unexplained_gap interior;
      passed = is_empty reasons;
      reasons = reasons;
    }

unfoldable pub report_of : Percentiles → Schedule → ℕ → ℤ → List PacingRecord → Result PacingReport
report_of percentiles sender rate_pps batch_window_us records = do
  p1 ← percentile_or_zero percentiles.rank_p1 (windows_of sender records).0
  p99 ← percentile_or_zero percentiles.rank_p99 (windows_of sender records).0
  ok (report_with percentiles sender rate_pps batch_window_us records p1 p99)

-- `has_columns`: the header of the file has the three columns. The sender's statistics are looked into after the rows.
abbrev pub analyze_rows :
    Percentiles → Bool → List (ℤ × ℤ × ℤ) → Result Schedule → ℕ → ℤ → Result PacingReport
analyze_rows percentiles has_columns rows sender rate_pps batch_window_us = do
  raise_if (not has_columns) (Error.value_error "Pacing trace has an invalid header")
  records ← read_rows rows
  schedule ← sender
  report_of percentiles schedule rate_pps batch_window_us (sorted_records records)

unfoldable pub analyze_pacing_trace :
    Percentiles → Bool → List (ℤ × ℤ × ℤ) → Schedule → ℕ → ℤ → Result PacingReport
analyze_pacing_trace percentiles has_columns rows sender rate_pps batch_window_us =
    analyze_rows percentiles has_columns rows (ok sender) rate_pps batch_window_us
