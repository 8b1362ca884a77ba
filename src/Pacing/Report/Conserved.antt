-- ===== src/Pacing/Report/Conserved.antt =====
-- The windows of `analyze_pacing_trace` (main.py) count every packet between the edges once.
use net_latency_lab.Base.{
  ℕ, zero, suc, ◌+◌, ◌-◌, ◌/◌, ◌<◌, ◌≡◌, refl, List, [], ◌∷◌, length, if◌then◌else◌, Bool-cases,
  inl, inr, arith,
}
use net_latency_lab.Pacing.Report.{
  PacingRecord, Schedule, window_ns, edge_ns, zeros, add_at, is_interior, fill_windows,
  window_count_of, windows_of, insert_record, sorted_records,
}

pub total : List ℕ → ℕ
total [] = 0
total (c ∷ counts) = c + total counts

pub length-add_at :
    (index count : ℕ) (counts : List ℕ) → length (add_at index count counts) ≡ length counts
length-add_at index count [] = refl
length-add_at zero count (c ∷ counts) = refl
length-add_at (suc index) count (c ∷ counts) = ground (arith, length-add_at index count counts)

total-add_at :
    (index count : ℕ) (counts : List ℕ)
    → index < length counts
    → total (add_at index count counts) ≡ total counts + count
unfolding total
total-add_at index count [] h = absurd (omega arith)
total-add_at zero count (c ∷ counts) h = omega arith
total-add_at (suc index) count (c ∷ counts) h =
    omega (arith, total-add_at index count counts (omega arith))

pub length-zeros : (n : ℕ) → length (zeros n) ≡ n
length-zeros zero = refl
length-zeros (suc n) = ground (arith, length-zeros n)

total-zeros : (n : ℕ) → total (zeros n) ≡ 0
unfolding total
total-zeros zero = refl
total-zeros (suc n) = omega (arith, total-zeros n)

-- The packets of the records between the edges.
pub interior_packets : ℕ → ℕ → List PacingRecord → ℕ
interior_packets interior_start window_count [] = 0
interior_packets interior_start window_count (r ∷ records) =
    let rest = interior_packets interior_start window_count records in
    if is_interior interior_start window_count r then r.count + rest else rest

total-fill_windows :
    (interior_start window_count : ℕ) (counts : List ℕ) (records : List PacingRecord)
    → length counts ≡ window_count
    → total (fill_windows interior_start window_count counts records).0
      ≡ total counts + interior_packets interior_start window_count records
unfolding fill_windows interior_packets
total-fill_windows interior_start window_count counts [] size = omega arith
total-fill_windows interior_start window_count counts (r ∷ records) size =
    elim (Bool-cases (is_interior interior_start window_count r)) [
      | inl inside ↦
          let index = (r.actual - interior_start) / window_ns in
          let known : index < length counts = ground (arith, inside, size) in
          let filled = add_at index r.count counts in
          let same = length-add_at index r.count counts in
          let ih = total-fill_windows interior_start window_count filled records (omega arith) in
          let added = total-add_at index r.count counts known in
          rw inside (omega (arith, ih, added))
      | inr outside ↦
          rw outside (total-fill_windows interior_start window_count counts records size)
    ]

interior_packets-insert_record :
    (interior_start window_count : ℕ) (r : PacingRecord) (records : List PacingRecord)
    → interior_packets interior_start window_count (insert_record r records)
      ≡ interior_packets interior_start window_count (r ∷ records)
unfolding interior_packets insert_record
interior_packets-insert_record interior_start window_count r [] = refl
interior_packets-insert_record interior_start window_count r (s ∷ records) =
    ground (arith, interior_packets-insert_record interior_start window_count r records)

interior_packets-sorted_records :
    (interior_start window_count : ℕ) (records : List PacingRecord)
    → interior_packets interior_start window_count (sorted_records records)
      ≡ interior_packets interior_start window_count records
unfolding interior_packets sorted_records
interior_packets-sorted_records interior_start window_count [] = refl
interior_packets-sorted_records interior_start window_count (r ∷ records) = ground (
  arith,
  interior_packets-insert_record interior_start window_count r (sorted_records records),
  interior_packets-sorted_records interior_start window_count records,
)

-- The counts of all windows of the sorted records add up to the packets of the records that lie between the edges of
-- the interval: each is counted in one window, none twice.
pub windows_of_conserved :
    (sender : Schedule) (records : List PacingRecord)
    → total (windows_of sender (sorted_records records)).0
      ≡ interior_packets (sender.start_mono_ns + edge_ns) (window_count_of sender) records
windows_of_conserved sender records =
    let n = window_count_of sender in
    let start = sender.start_mono_ns + edge_ns in
    omega (
      arith,
      total-fill_windows start n (zeros n) (sorted_records records) (length-zeros n),
      total-zeros n,
      interior_packets-sorted_records start n records,
    )
