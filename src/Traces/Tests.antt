-- ===== src/Traces/Tests.antt =====
-- Logs and sequence numbers (analysis/latency_utils.py), on concrete inputs.
use net_latency_lab.Base.{ℕ, ◌+◌, ◌≡◌, refl, none, some, List, [], ◌∷◌, map, length, arith}
use net_latency_lab.Python.Error.{ok}
use net_latency_lab.Traces.Metrics.{TraceRecord, derive_metrics}
use net_latency_lab.Traces.Load.{load_binary_file}
use net_latency_lab.Traces.Load.RoundTrip.{LogEntry, IsEntry, encode_log, row_of, load-encode_log}
use net_latency_lab.Traces.Load.Complete.{IsWhole, load_binary_file-IsWhole}
use net_latency_lab.Traces.Sequence.{
  count_reordered, sequence_statistics, minimum, maximum, late_arrivals, sequence_statistics_fills,
  sequence_statistics-reordered,
}

abbrev entry : LogEntry
entry = record {
  seq_idx = 70_000;
  tx_ts = 1_000_000_000;
  rx_ts = 1_000_050_000;
  processing_start_ts = 1_000_060_000;
  processing_finish_ts = 1_000_061_500;
}

entry-IsEntry : IsEntry entry
entry-IsEntry = record {
  seq_idx = omega arith;
  tx_ts = omega arith;
  rx_ts = omega arith;
  processing_start_ts = omega arith;
  processing_finish_ts = omega arith;
}

load-encode_log_example :
    load_binary_file (some (encode_log (entry ∷ entry ∷ [])))
    ≡ ok (map derive_metrics (map row_of (entry ∷ entry ∷ [])))
load-encode_log_example = load-encode_log (entry ∷ entry ∷ []) (entry-IsEntry, (entry-IsEntry, tt))

load_binary_file-IsWhole_example :
    IsWhole (encode_log (entry ∷ [])) (map derive_metrics (map row_of (entry ∷ [])))
load_binary_file-IsWhole_example =
    load_binary_file-IsWhole (encode_log (entry ∷ []))
      (map derive_metrics (map row_of (entry ∷ [])))
      (load-encode_log (entry ∷ []) (entry-IsEntry, tt))

-- The receiver's clock is behind the sender's.
abbrev behind : TraceRecord
behind = record {
  seq = 3;
  tx_ns = 1000;
  rx_ns = 400;
  processing_start_ns = 450;
  processing_finish_ns = 700;
  legacy_recorded_latency_ns = none;
  log_format_version = 1;
}

-- 6 and 9 are lost, 7 comes twice, and 5 and 8 come late.
abbrev arrivals : List ℕ
arrivals = 7 ∷ 5 ∷ 7 ∷ 10 ∷ 8 ∷ []

sequence_statistics_fills_example :
    (sequence_statistics (4 ∷ arrivals)).sequence_gap_loss
      + length (4 ∷ arrivals)
      + minimum 4 arrivals
    ≡ maximum 4 arrivals + 1 + (sequence_statistics (4 ∷ arrivals)).duplicates
sequence_statistics_fills_example = sequence_statistics_fills 4 arrivals

sequence_statistics-reordered_example :
    (sequence_statistics arrivals).reordered ≡ late_arrivals [] arrivals
sequence_statistics-reordered_example = sequence_statistics-reordered arrivals

two_late : (sequence_statistics arrivals).reordered ≡ 2
unfolding sequence_statistics count_reordered
two_late = refl
