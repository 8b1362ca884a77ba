-- ===== src/Traces/Load/Complete.antt =====
-- That `load_binary_file` (analysis/latency_utils.py) drops no byte of a file it accepts.
use net_latency_lab.Base.{
  ℕ, zero, suc, ◌+◌, ◌-◌, ◌*◌, ◌/◌, ◌≡◌, refl, ◌⊎◌, inl, inr, subst, Bool, Bool-cases,
  if◌then◌else◌, true, false, some, List, [], ◌∷◌, map, length, arith, drop,
}
use net_latency_lab.Python.Error.{Result, ok, >>=-BothReturn}
use net_latency_lab.Traces.Bytes.{read_le, starts_with}
use net_latency_lab.Traces.Metrics.{TraceRecord, Row, derive_metrics}
use net_latency_lab.Traces.Load.{
  log_magic, versioned_size, legacy_size, iter_unpack, unpack_versioned, unpack_legacy,
  load_versioned, load_legacy, load_bytes, load_binary_file,
}

-- The header's size, as its header gives it.
pub header_size_of : List ℕ → ℕ
header_size_of raw = (read_le 2 (read_le 2 (drop 8 raw)).1).0

-- The file is a header and whole records, or whole records of the old layout, as many as rows.
pub IsWhole : {A : Type 0} → List ℕ → List A → Type 0
IsWhole raw rows =
    (starts_with log_magic raw ≡ true
      × (header_size_of raw + versioned_size * length rows ≡ length raw))
    ⊎ (starts_with log_magic raw ≡ false × (legacy_size * length rows ≡ length raw))

length-iter_unpack :
    (unpack : List ℕ → TraceRecord × List ℕ) (n : ℕ) (bytes : List ℕ)
    → length (iter_unpack unpack n bytes) ≡ n
unfolding iter_unpack
length-iter_unpack unpack zero bytes = refl
length-iter_unpack unpack (suc n) bytes =
    ground (arith, length-iter_unpack unpack n (unpack bytes).1)

length-drop : (n : ℕ) (bytes : List ℕ) → length (drop n bytes) ≡ length bytes - n
length-drop zero bytes = ground arith
length-drop (suc n) [] = ground arith
length-drop (suc n) (b ∷ bytes) = ground (arith, length-drop n bytes)

length-map : {A B : Type 0} (f : A → B) (xs : List A) → length (map f xs) ≡ length xs
length-map f [] = refl
length-map f (x ∷ xs) = ground (arith, length-map f xs)

load_legacy_whole :
    (raw : List ℕ) (rows : List TraceRecord)
    → load_legacy raw ≡ ok rows
    → legacy_size * length rows ≡ length raw
unfolding load_legacy
load_legacy_whole raw rows h =
    let n = length-iter_unpack unpack_legacy (length raw / legacy_size) raw in ground (arith, n)

load_versioned_whole :
    (raw : List ℕ) (rows : List TraceRecord)
    → load_versioned raw ≡ ok rows
    → header_size_of raw + versioned_size * length rows ≡ length raw
unfolding load_versioned header_size_of
load_versioned_whole raw rows h =
    let rest = length-drop (header_size_of raw) raw in
    let n =
      length-iter_unpack (unpack_versioned (read_le 2 (drop 8 raw)).0)
        (length (drop (header_size_of raw) raw) / versioned_size) (drop (header_size_of raw) raw) in
    ground (arith, rest, n)

load_bytes-IsWhole :
    (raw : List ℕ) (rows : List TraceRecord) → load_bytes raw ≡ ok rows → IsWhole raw rows
unfolding load_bytes IsWhole
load_bytes-IsWhole [] rows h = ground arith
load_bytes-IsWhole (b ∷ raw) rows h =
    let choice : Bool → Result (List TraceRecord) =
      λ t. if t then load_versioned (b ∷ raw) else load_legacy (b ∷ raw) in
    elim (Bool-cases (starts_with log_magic (b ∷ raw))) [
      | inl magic ↦
          inl (magic, load_versioned_whole (b ∷ raw) rows (subst (λ t. choice t ≡ ok rows) magic h))
      | inr plain ↦
          inr (plain, load_legacy_whole (b ∷ raw) rows (subst (λ t. choice t ≡ ok rows) plain h))
    ]

-- Of a file that is accepted no byte is dropped: it is a header of the size it states and whole records behind
-- it, or whole records of the old layout, as many records as rows.
pub load_binary_file-IsWhole :
    (raw : List ℕ) (rows : List Row) → load_binary_file (some raw) ≡ ok rows → IsWhole raw rows
unfolding load_binary_file IsWhole
load_binary_file-IsWhole raw rows h =
    let both = >>=-BothReturn (load_bytes raw) _ h in
    let whole = load_bytes-IsWhole raw both.value both.first in
    let same : map derive_metrics both.value ≡ rows = ground (arith, both.second) in
    ground (arith, whole, same, length-map derive_metrics both.value)
