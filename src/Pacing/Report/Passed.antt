-- ===== src/Pacing/Report/Passed.antt =====
-- What the report of `analyze_pacing_trace` (main.py) says of a trace, and when it has passed.
use mathlib.Core.List.{Perm}
use net_latency_lab.Base.{
  ℕ, ◌*◌, ◌≤◌, ◌<◌, min, map, filter, All, ◌⊎◌, subst, ◌/◌, ◌-◌, ◌+◌, true, false, not, ◌&&◌, List,
  [], ◌∷◌, length, ◌==◌, ◌≡◌, refl, ◌∙◌, ◌≢◌, ◌↔◌, arith, Bool-cases, inl, inr,
}
use net_latency_lab.Base.Int.{ℤ, pos, ◌*ℤ◌, ◌≤ℤ◌, ltb_ℤ, differs_iff}
use net_latency_lab.Python.Error.{ok}
use net_latency_lab.Pacing.Rank.{IsRanked, nearest_rank-IsRanked}
use net_latency_lab.Pacing.Report.{
  PacingRecord, Percentiles, Schedule, PacingReport, fill_windows, is_interior, add_at, zeros,
  window_ns, edge_ns, total_packets, max_gap, max_unexplained_gap, percentile_or_zero, is_empty,
  pacing_reasons_of, window_count_of, windows_of, report_with, report_of, sorted_records,
  analyze_pacing_trace,
}
use net_latency_lab.Pacing.Report.Conserved.{length-add_at, length-zeros}
use net_latency_lab.Pacing.Report.Ordered.{
  row_of, read_rows-map, AreOrdered, sorted_records-AreOrdered, sorted_records-Perm,
}
use net_latency_lab.Pacing.Report.Windows.{
  packets_of, total_packets-packets_of, window_packets, windows_of-window_packets,
  fill_windows-interior,
}
use net_latency_lab.Pacing.Report.Gaps.{
  gap, unexplained, between_neighbours, IsGreatest, max_gap-IsGreatest,
  max_unexplained_gap-IsGreatest,
}
use net_latency_lab.Verdict.Notes.{append-both_iff, note_if_iff}

-- The report shows windows, the packets that the sender sent, percentiles inside the band, and no gap of more than two
-- batch windows that the schedule does not explain.
pub IsPaced : Percentiles → Schedule → ℕ → ℤ → PacingReport → Type 0
IsPaced percentiles sender rate_pps batch_window_us report =
    (report.window_count ≢ 0)
    × (pos report.trace_packets ≡ sender.successful_sends)
    × (percentiles.is_outside_band rate_pps report.p1_packets report.p99_packets ≡ false)
    × (pos report.max_unexplained_enqueue_gap_ns ≤ℤ pos 2000 *ℤ batch_window_us)

length-fill_windows :
    (interior_start window_count : ℕ) (counts : List ℕ) (records : List PacingRecord)
    → length (fill_windows interior_start window_count counts records).0 ≡ length counts
unfolding fill_windows
length-fill_windows interior_start window_count counts [] = refl
length-fill_windows interior_start window_count counts (r ∷ records) =
    elim (Bool-cases (is_interior interior_start window_count r)) [
      | inl inside ↦
          let index = (r.actual - interior_start) / window_ns in
          rw inside (
            length-fill_windows interior_start window_count (add_at index r.count counts) records
            ∙ length-add_at index r.count counts)
      | inr outside ↦ rw outside (length-fill_windows interior_start window_count counts records)
    ]

empty_of_length : (counts : List ℕ) (n : ℕ) → length counts ≡ n → is_empty counts ≡ (n == 0)
empty_of_length [] n h = ground (arith, h)
empty_of_length (c ∷ counts) n h = ground (arith, h)

-- The value at the rank in the sample, 0 of a sample that is empty.
abbrev pub IsPercentile : (ℕ → ℕ) → List ℕ → ℕ → Type 0
IsPercentile rank [] x = x ≡ 0
IsPercentile rank (c ∷ counts) x =
    let size = length (c ∷ counts) in IsRanked (min (size - 1) (rank size - 1)) (c ∷ counts) x

percentile_or_zero-IsPercentile :
    (rank : ℕ → ℕ) (counts : List ℕ)
    → (x : ℕ) × (percentile_or_zero rank counts ≡ ok x) × IsPercentile rank counts x
percentile_or_zero-IsPercentile rank [] = (0, refl, refl)
percentile_or_zero-IsPercentile rank (c ∷ counts) = nearest_rank-IsRanked rank c counts

-- So many windows lie between the edges of the interval, and not one more.
abbrev pub AreFitting : Schedule → ℕ → Type 0
AreFitting sender n =
    ((n ≡ 0) ⊎ (sender.start_mono_ns + 2 * edge_ns + n * window_ns ≤ sender.scheduled_end_mono_ns))
    × (sender.scheduled_end_mono_ns < sender.start_mono_ns + 2 * edge_ns + (n + 1) * window_ns)

window_count_of-AreFitting : (sender : Schedule) → AreFitting sender (window_count_of sender)
window_count_of-AreFitting sender = ground arith

-- The numbers of the report are those of the records of the trace in the order of their times. The windows start
-- behind the first edge.
pub record IsReportOf (percentiles : Percentiles) (sender : Schedule) (trace : List PacingRecord)
    (report : PacingReport) : Type 0 where
  pub ordered : List PacingRecord
  pub permuted : Perm ordered trace
  pub in_order : AreOrdered ordered
  pub counted : report.records ≡ length ordered
  pub packets : report.trace_packets ≡ packets_of ordered
  pub fitting : AreFitting sender report.window_count
  pub p1 :
      IsPercentile percentiles.rank_p1
        (window_packets (sender.start_mono_ns + edge_ns) report.window_count ordered)
        report.p1_packets
  pub p99 :
      IsPercentile percentiles.rank_p99
        (window_packets (sender.start_mono_ns + edge_ns) report.window_count ordered)
        report.p99_packets
  pub max_enqueue_gap :
      IsGreatest
        (between_neighbours gap
          (filter (is_interior (sender.start_mono_ns + edge_ns) report.window_count) ordered))
        report.max_enqueue_gap_ns
  pub max_unexplained_enqueue_gap :
      IsGreatest
        (between_neighbours unexplained
          (filter (is_interior (sender.start_mono_ns + edge_ns) report.window_count) ordered))
        report.max_unexplained_enqueue_gap_ns

zero_iff : (n : ℕ) → ((n == 0) ≡ false) ↔ (n ≢ 0)
zero_iff n = (λ h. ground arith, λ h. ground arith)

exceeds_iff : (a b : ℤ) → (ltb_ℤ a b ≡ false) ↔ (b ≤ℤ a)
exceeds_iff a b = (λ h. ground arith, λ h. ground arith)

pacing_reasons_of_iff :
    (percentiles : Percentiles) (sender : Schedule) (rate_pps : ℕ) (batch_window_us : ℤ)
    (window_count : ℕ) (counts : List ℕ) (trace_packets p1 p99 unexplained : ℕ)
    → is_empty counts ≡ (window_count == 0)
    → (pacing_reasons_of percentiles sender rate_pps batch_window_us window_count counts
          trace_packets p1 p99 unexplained
        ≡ [])
      ↔ ((window_count ≢ 0)
          × (pos trace_packets ≡ sender.successful_sends)
          × (percentiles.is_outside_band rate_pps p1 p99 ≡ false)
          × (pos unexplained ≤ℤ pos 2000 *ℤ batch_window_us))
unfolding pacing_reasons_of
pacing_reasons_of_iff percentiles sender rate_pps batch_window_us window_count counts trace_packets
      p1 p99 unexplained same =
    let outside = percentiles.is_outside_band rate_pps p1 p99 in
    let all =
      append-both_iff
        (append-both_iff
          (append-both_iff (note_if_iff _ (zero_iff window_count))
            (note_if_iff _ (differs_iff (pos trace_packets) sender.successful_sends)))
          (note_if_iff {P = (not (is_empty counts) && outside) ≡ false} _ (λ h. h, λ h. h)))
        (note_if_iff _ (exceeds_iff (pos 2000 *ℤ batch_window_us) (pos unexplained))) in
    let filled = zero_iff window_count in
    (
      λ h. let (((a, b), c), d) = all.0 h in (a, b, ground (arith, filled.1 a, same, c), d),
      λ h. all.1 (((h.0, h.1), ground (arith, h.2)), h.3),
    )

is_empty_iff : {A : Type 0} (xs : List A) → (is_empty xs ≡ true) ↔ (xs ≡ [])
is_empty_iff [] = (λ h. refl, λ h. refl)
is_empty_iff (x ∷ xs) = (λ h. cc, λ h. cc)

-- The report on records that are in order.
report_of-IsReportOf :
    (percentiles : Percentiles) (sender : Schedule) (rate_pps : ℕ) (batch_window_us : ℤ)
    (trace records : List PacingRecord)
    → Perm records trace
    → AreOrdered records
    → (report : PacingReport) × (report_of percentiles sender rate_pps batch_window_us records
        ≡ ok report)
      × IsReportOf percentiles sender trace report
      × ((report.passed ≡ true) ↔ IsPaced percentiles sender rate_pps batch_window_us report)
unfolding report_of IsPaced
report_of-IsReportOf percentiles sender rate_pps batch_window_us trace records permuted in_order =
    let counts = (windows_of sender records).0 in
    let from = sender.start_mono_ns + edge_ns in
    let n = window_count_of sender in
    let (p1, e1, low) = percentile_or_zero-IsPercentile percentiles.rank_p1 counts in
    let (p99, e99, high) = percentile_or_zero-IsPercentile percentiles.rank_p99 counts in
    let same = windows_of-window_packets sender records in
    let inside = fill_windows-interior from n (zeros n) records in
    let interior = (windows_of sender records).1 in
    let unexplained_ns = max_unexplained_gap interior in
    let size = length-fill_windows from n (zeros n) records ∙ length-zeros n in
    let reasons =
      pacing_reasons_of percentiles sender rate_pps batch_window_us n counts (total_packets records)
        p1 p99 unexplained_ns in
    let empty = is_empty_iff reasons in
    let verdict =
      pacing_reasons_of_iff percentiles sender rate_pps batch_window_us n counts
        (total_packets records) p1 p99 unexplained_ns (empty_of_length counts n size) in
    (
      report_with percentiles sender rate_pps batch_window_us records p1 p99,
      rw (e1, e99),
      record {
        ordered = records;
        permuted = permuted;
        in_order = in_order;
        counted = refl;
        packets = total_packets-packets_of records;
        fitting = window_count_of-AreFitting sender;
        p1 = subst (λ cs. IsPercentile percentiles.rank_p1 cs p1) same low;
        p99 = subst (λ cs. IsPercentile percentiles.rank_p99 cs p99) same high;
        max_enqueue_gap =
            subst (λ rs. IsGreatest (between_neighbours gap rs) (max_gap interior)) inside
              (max_gap-IsGreatest interior);
        max_unexplained_enqueue_gap =
            subst (λ rs. IsGreatest (between_neighbours unexplained rs) unexplained_ns) inside
              (max_unexplained_gap-IsGreatest interior);
      },
      (λ h. verdict.0 (empty.0 h), λ h. empty.1 (verdict.1 h)),
    )

-- The analysis of a trace with the three columns, whose rows are records with packets and times that are not
-- negative, returns a report. With the records ordered by their times, the report counts the records and all
-- their packets, and as many windows as lie between the edges; its percentiles are the values at their ranks
-- among the packets of each window, and its two gaps the greatest between neighbours inside the windows, as
-- they are and less what the schedule explains. The report has passed exactly when there is a window, the
-- packets are those that the sender sent, the percentiles stay in the band, and the unexplained gap is at most
-- two batch windows.
pub analyze_pacing_trace-IsReportOf :
    (percentiles : Percentiles) (sender : Schedule) (rate_pps : ℕ) (batch_window_us : ℤ)
    (trace : List PacingRecord)
    → All (λ r. 0 < r.count) trace
    → (report : PacingReport) × (analyze_pacing_trace percentiles true
          (map row_of trace)
          sender
          rate_pps
          batch_window_us
        ≡ ok report)
      × IsReportOf percentiles sender trace report
      × ((report.passed ≡ true) ↔ IsPaced percentiles sender rate_pps batch_window_us report)
unfolding analyze_pacing_trace
analyze_pacing_trace-IsReportOf percentiles sender rate_pps batch_window_us trace positive =
    rw (read_rows-map trace positive) (
      report_of-IsReportOf percentiles sender rate_pps batch_window_us trace (sorted_records trace)
        (sorted_records-Perm trace) (sorted_records-AreOrdered trace))
