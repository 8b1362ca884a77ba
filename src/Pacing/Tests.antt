-- ===== src/Pacing/Tests.antt =====
-- A pacing trace (main.py) of two windows.
use net_latency_lab.Base.{ℕ, ◌+◌, true, false, List, [], ◌∷◌, ◌≡◌, ◌↔◌, map, arith}
use net_latency_lab.Base.Int.{pos}
use net_latency_lab.Python.Error.{ok}
use net_latency_lab.Pacing.Report.{
  PacingRecord, Percentiles, Schedule, PacingReport, edge_ns, sorted_records, window_count_of,
  windows_of, analyze_pacing_trace,
}
use net_latency_lab.Pacing.Report.Conserved.{total, interior_packets, windows_of_conserved}
use net_latency_lab.Pacing.Report.Ordered.{row_of}
use net_latency_lab.Pacing.Report.Passed.{IsPaced, IsReportOf, analyze_pacing_trace-IsReportOf}

-- The middle of a sample.
abbrev median : ℕ → ℕ
median n = 2

abbrev sender : Schedule
sender = record { start_mono_ns = 0; scheduled_end_mono_ns = 202_000_000; successful_sends = pos 9 }

abbrev records : List PacingRecord
records =
    record { actual = 101_500_000; scheduled = 101_500_000; count = 4 }
    ∷ record { actual = 100_200_000; scheduled = 100_100_000; count = 5 }
    ∷ []

abbrev lenient : Percentiles
lenient = record { rank_p1 = median; rank_p99 = median; is_outside_band = λ rate p1 p99. false }

windows_of_conserved_example :
    total (windows_of sender (sorted_records records)).0
    ≡ interior_packets (sender.start_mono_ns + edge_ns) (window_count_of sender) records
windows_of_conserved_example = windows_of_conserved sender records

analyze_pacing_trace-IsReportOf_example :
    (report : PacingReport) × (analyze_pacing_trace lenient true
        (map row_of records)
        sender
        4000
        (pos 10)
      ≡ ok report)
    × IsReportOf lenient sender records report
    × ((report.passed ≡ true) ↔ IsPaced lenient sender 4000 (pos 10) report)
analyze_pacing_trace-IsReportOf_example =
    analyze_pacing_trace-IsReportOf lenient sender 4000 (pos 10) records
      (omega arith, (omega arith, tt))
