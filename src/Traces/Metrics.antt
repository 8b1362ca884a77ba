-- ===== src/Traces/Metrics.antt =====
-- `_derive_metrics` (analysis/latency_utils.py): the latencies in nanoseconds of each row. The columns are
-- int64, which a timestamp below 2^63 fits; a difference of two such never wraps, so it is taken in ℤ.
use net_latency_lab.Base.{ℕ, ◌≡◌, Option}
use net_latency_lab.Base.Int.{ℤ, pos, ◌+ℤ◌, ◌-ℤ◌, int_laws, eq_of_parts}

-- What a file holds of a packet. `legacy_recorded_latency_ns` is none where the source has `pd.NA`.
pub record TraceRecord : Type 0 where
  pub seq : ℕ
  pub tx_ns : ℕ
  pub rx_ns : ℕ
  pub processing_start_ns : ℕ
  pub processing_finish_ns : ℕ
  pub legacy_recorded_latency_ns : Option ℤ
  pub log_format_version : ℕ

-- One row of the frame: what the file holds, and what is derived of it.
pub record Row : Type 0 where
  pub held : TraceRecord
  pub receive_latency_ns : ℤ
  pub application_queue_delay_ns : ℤ
  pub processing_time_ns : ℤ
  pub total_application_latency_ns : ℤ
  pub raw_latency_ns : ℤ

unfoldable pub derive_metrics : TraceRecord → Row
derive_metrics r = record {
  held = r;
  receive_latency_ns = pos r.rx_ns -ℤ pos r.tx_ns;
  application_queue_delay_ns = pos r.processing_start_ns -ℤ pos r.rx_ns;
  processing_time_ns = pos r.processing_finish_ns -ℤ pos r.processing_start_ns;
  total_application_latency_ns = pos r.processing_finish_ns -ℤ pos r.tx_ns;
  raw_latency_ns = pos r.rx_ns -ℤ pos r.tx_ns;
}

telescope : (a b c d : ℤ) → d -ℤ a ≡ b -ℤ a +ℤ (c -ℤ b) +ℤ (d -ℤ c)
telescope a b c d = eq_of_parts _ _ (omega int_laws)

-- The total latency of a row is the sum of the receive latency, the delay in the queue and the time of the
-- processing, whichever way the clocks differ.
pub derive_metrics_total :
    (r : TraceRecord)
    → (derive_metrics r).total_application_latency_ns
      ≡ (derive_metrics r).receive_latency_ns
        +ℤ (derive_metrics r).application_queue_delay_ns
        +ℤ (derive_metrics r).processing_time_ns
unfolding derive_metrics
derive_metrics_total r =
    telescope (pos r.tx_ns) (pos r.rx_ns) (pos r.processing_start_ns) (pos r.processing_finish_ns)
