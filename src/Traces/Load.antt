-- ===== src/Traces/Load.antt =====
-- `load_binary_file` (analysis/latency_utils.py), on the bytes of the file. The layout is that of
-- docs/binary_log_format.md.
pub mod RoundTrip
pub mod Complete
use net_latency_lab.Base.{
  ℕ, zero, suc, ◌+◌, ◌/◌, ◌%◌, String, Bool, true, false, not, ◌||◌, Option, none, some, List, [],
  ◌∷◌, ◌++◌, ◌==◌, ltb, length, take, drop, map, if◌then◌else◌,
}
use net_latency_lab.Python.Error.{Error, Result, ok, err, raise_if, ◌>>=◌, ◌>>◌}
use net_latency_lab.Traces.Metrics.{TraceRecord, Row, derive_metrics}
use net_latency_lab.Traces.Bytes.{read_le, signed, starts_with}

-- b"NLLOG\x00\r\n"
abbrev pub log_magic : List ℕ
log_magic = b'N' ∷ b'L' ∷ b'L' ∷ b'O' ∷ b'G' ∷ 0 ∷ 13 ∷ 10 ∷ []

abbrev pub log_version : ℕ
log_version = 1

-- `struct.calcsize` of "<8sHHI", "<IQQQQ" and "<IQQq".
abbrev pub header_size : ℕ
header_size = 16

abbrev pub versioned_size : ℕ
versioned_size = 36

abbrev pub legacy_size : ℕ
legacy_size = 28

pub unpack_versioned : ℕ → List ℕ → TraceRecord × List ℕ
unpack_versioned version bytes =
    let (seq, b₁) = read_le 4 bytes in
    let (tx, b₂) = read_le 8 b₁ in
    let (rx, b₃) = read_le 8 b₂ in
    let (start, b₄) = read_le 8 b₃ in
    let (finish, b₅) = read_le 8 b₄ in
    (
      record {
        seq = seq;
        tx_ns = tx;
        rx_ns = rx;
        processing_start_ns = start;
        processing_finish_ns = finish;
        legacy_recorded_latency_ns = none;
        log_format_version = version;
      },
      b₅,
    )

-- A legacy record has no processing times: its receive time stands in for both.
pub unpack_legacy : List ℕ → TraceRecord × List ℕ
unpack_legacy bytes =
    let (seq, b₁) = read_le 4 bytes in
    let (tx, b₂) = read_le 8 b₁ in
    let (rx, b₃) = read_le 8 b₂ in
    let (recorded_latency, b₄) = read_le 8 b₃ in
    (
      record {
        seq = seq;
        tx_ns = tx;
        rx_ns = rx;
        processing_start_ns = rx;
        processing_finish_ns = rx;
        legacy_recorded_latency_ns = some (signed 8 recorded_latency);
        log_format_version = 0;
      },
      b₄,
    )

-- `struct.iter_unpack`, over so many records.
pub iter_unpack : (List ℕ → TraceRecord × List ℕ) → ℕ → List ℕ → List TraceRecord
iter_unpack unpack zero bytes = []
iter_unpack unpack (suc n) bytes = let (r, rest) = unpack bytes in r ∷ iter_unpack unpack n rest

-- The branch of a file that begins with the magic.
pub load_versioned : List ℕ → Result (List TraceRecord)
load_versioned raw = do
  raise_if (ltb (length raw) header_size) (Error.value_error "Truncated binary log header")
  let (version, b₁) = read_le 2 (drop 8 raw)
  let (size, b₂) = read_le 2 b₁
  let (entry_size, _) = read_le 4 b₂
  raise_if (not (starts_with log_magic (take 8 raw))) (Error.value_error "Invalid binary log magic")
  raise_if (not (version == log_version)) (Error.value_error "Unsupported binary log version")
  raise_if (ltb size header_size || ltb (length raw) size)
      (Error.value_error "Invalid binary log header size")
  raise_if (not (entry_size == versioned_size))
      (Error.value_error "Unsupported binary log entry size")
  let payload = drop size raw
  raise_if (not (length payload % versioned_size == 0))
      (Error.value_error "Truncated versioned binary log record")
  ok (iter_unpack (unpack_versioned version) (length payload / versioned_size) payload)

-- The branch of a headerless file.
pub load_legacy : List ℕ → Result (List TraceRecord)
load_legacy raw = do
  raise_if (not (length raw % legacy_size == 0))
      (Error.value_error "Unrecognized or truncated legacy binary log")
  ok (iter_unpack unpack_legacy (length raw / legacy_size) raw)

pub load_bytes : List ℕ → Result (List TraceRecord)
load_bytes [] = ok []
load_bytes (b ∷ raw) =
    if starts_with log_magic (b ∷ raw) then load_versioned (b ∷ raw) else load_legacy (b ∷ raw)

-- The file's bytes, or none if there is no such file.
pub load_binary_file : Option (List ℕ) → Result (List Row)
load_binary_file none = err Error.os_error
load_binary_file (some raw) = do records ← load_bytes raw; ok (map derive_metrics records)
