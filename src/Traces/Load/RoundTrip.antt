-- ===== src/Traces/Load/RoundTrip.antt =====
-- What `load_binary_file` (analysis/latency_utils.py) makes of a file that the receiver has written
-- (src/common/csv_writer.hpp).
use net_latency_lab.Base.{
  ℕ, ◌+◌, ◌*◌, ◌/◌, ◌<◌, ◌≡◌, refl, none, some, List, [], ◌∷◌, ◌++◌, map, All, length,
  length-append, arith,
}
use net_latency_lab.Python.Error.{ok}
use net_latency_lab.Traces.Bytes.{limit, read_le, encode_le, read_le-encode_le, length-encode_le}
use net_latency_lab.Traces.Metrics.{TraceRecord, derive_metrics}
use net_latency_lab.Traces.Load.{
  log_magic, log_version, header_size, versioned_size, unpack_versioned, iter_unpack,
  load_versioned, load_bytes, load_binary_file,
}

-- `LogEntry` of the receiver.
pub record LogEntry : Type 0 where
  pub seq_idx : ℕ
  pub tx_ts : ℕ
  pub rx_ts : ℕ
  pub processing_start_ts : ℕ
  pub processing_finish_ts : ℕ

-- The fields fit a `uint32_t` and, as nanoseconds in an int64 column, 63 bits of a `uint64_t`.
pub record IsEntry (e : LogEntry) : Type 0 where
  pub seq_idx : e.seq_idx < limit 4
  pub tx_ts : e.tx_ts < limit 8 / 2
  pub rx_ts : e.rx_ts < limit 8 / 2
  pub processing_start_ts : e.processing_start_ts < limit 8 / 2
  pub processing_finish_ts : e.processing_finish_ts < limit 8 / 2

-- `encode_log_header`, `encode_log_entry`
pub encode_header : List ℕ → List ℕ
encode_header payload =
    log_magic
    ++ (encode_le 2 log_version
        ++ (encode_le 2 header_size ++ (encode_le 4 versioned_size ++ payload)))

pub encode_entry : LogEntry → List ℕ → List ℕ
encode_entry e rest =
    encode_le 4 e.seq_idx
    ++ (encode_le 8 e.tx_ts
        ++ (encode_le 8 e.rx_ts
            ++ (encode_le 8 e.processing_start_ts ++ (encode_le 8 e.processing_finish_ts ++ rest))))

pub encode_entries : List LogEntry → List ℕ
encode_entries [] = []
encode_entries (e ∷ entries) = encode_entry e (encode_entries entries)

pub encode_log : List LogEntry → List ℕ
encode_log entries = encode_header (encode_entries entries)

-- The row of an entry.
pub row_of : LogEntry → TraceRecord
row_of e = record {
  seq = e.seq_idx;
  tx_ns = e.tx_ts;
  rx_ns = e.rx_ts;
  processing_start_ns = e.processing_start_ts;
  processing_finish_ns = e.processing_finish_ts;
  legacy_recorded_latency_ns = none;
  log_format_version = log_version;
}

half_limit : {v : ℕ} → v < limit 8 / 2 → v < limit 8
half_limit h = omega arith

unpack-encode_entry :
    (e : LogEntry) (rest : List ℕ)
    → IsEntry e
    → unpack_versioned log_version (encode_entry e rest) ≡ (row_of e, rest)
unfolding unpack_versioned encode_entry row_of
unpack-encode_entry e rest fits = rw (
  read_le-encode_le 4 e.seq_idx _ fits.seq_idx,
  read_le-encode_le 8 e.tx_ts _ (half_limit fits.tx_ts),
  read_le-encode_le 8 e.rx_ts _ (half_limit fits.rx_ts),
  read_le-encode_le 8 e.processing_start_ts _ (half_limit fits.processing_start_ts),
  read_le-encode_le 8 e.processing_finish_ts _ (half_limit fits.processing_finish_ts),
)

length-encode_append : (n v : ℕ) (rest : List ℕ) → length (encode_le n v ++ rest) ≡ n + length rest
length-encode_append n v rest =
    omega (arith, length-append (encode_le n v) rest, length-encode_le n v)

length-encode_entry :
    (e : LogEntry) (rest : List ℕ) → length (encode_entry e rest) ≡ 36 + length rest
unfolding encode_entry
length-encode_entry e rest =
    rw
      (
        length-encode_append 4 e.seq_idx,
        length-encode_append 8 e.tx_ts,
        length-encode_append 8 e.rx_ts,
        length-encode_append 8 e.processing_start_ts,
        length-encode_append 8 e.processing_finish_ts,
      )
      (omega arith)

length-encode_entries :
    (entries : List LogEntry) → length (encode_entries entries) ≡ 36 * length entries
unfolding encode_entries
length-encode_entries [] = refl
length-encode_entries (e ∷ entries) =
    omega (arith, length-encode_entry e (encode_entries entries), length-encode_entries entries)

iter_unpack-encode_entries :
    (entries : List LogEntry)
    → All IsEntry entries
    → iter_unpack (unpack_versioned log_version) (length entries) (encode_entries entries)
      ≡ map row_of entries
unfolding iter_unpack encode_entries
iter_unpack-encode_entries [] fits = refl
iter_unpack-encode_entries (e ∷ entries) (fit, fits) =
    rw (unpack-encode_entry e (encode_entries entries) fit, iter_unpack-encode_entries entries fits)

-- A log whose entries fit their fields is read back: one row for each entry, in order, with the entry's
-- sequence number and timestamps.
pub load-encode_log :
    (entries : List LogEntry)
    → All IsEntry entries
    → load_binary_file (some (encode_log entries)) ≡ ok (map derive_metrics (map row_of entries))
unfolding load_binary_file load_bytes load_versioned encode_log encode_header encode_le read_le
load-encode_log entries fits =
    let size = length-encode_entries entries in
    let rows = iter_unpack-encode_entries entries fits in ground (arith, size, rows)
