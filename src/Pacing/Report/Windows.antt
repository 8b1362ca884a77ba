-- ===== src/Pacing/Report/Windows.antt =====
-- The counts of the windows in `analyze_pacing_trace` (main.py): each is the packets of the records in its interval.
use net_latency_lab.Base.{
  ℕ, zero, suc, ◌+◌, ◌-◌, ◌*◌, ◌/◌, ◌≤◌, ◌<◌, ◌≡◌, refl, sym, ◌∙◌, ap, ap₂, false, ◌&&◌, List, [],
  ◌∷◌, length, filter, leb, ltb, if◌then◌else◌, Bool-cases, inl, inr, arith,
}
use net_latency_lab.Pacing.Report.{
  PacingRecord, Schedule, window_ns, edge_ns, zeros, add_at, is_interior, fill_windows,
  window_count_of, windows_of, total_packets,
}
use net_latency_lab.Pacing.Report.Conserved.{length-add_at, length-zeros}

-- The packets of all records.
pub packets_of : List PacingRecord → ℕ
packets_of [] = 0
packets_of (r ∷ records) = r.count + packets_of records

pub total_packets-packets_of :
    (records : List PacingRecord) → total_packets records ≡ packets_of records
unfolding total_packets packets_of
total_packets-packets_of [] = refl
total_packets-packets_of (r ∷ records) = ap (λ n. r.count + n) (total_packets-packets_of records)

-- The packets of the records from a time up to before another.
pub packets_between : ℕ → ℕ → List PacingRecord → ℕ
packets_between from to [] = 0
packets_between from to (r ∷ records) =
    let rest = packets_between from to records in
    if leb from r.actual && ltb r.actual to then r.count + rest else rest

-- The packets of each of so many windows, one behind the other from a time on.
pub window_packets : ℕ → ℕ → List PacingRecord → List ℕ
window_packets from zero records = []
window_packets from (suc n) records =
    packets_between from (from + window_ns) records ∷ window_packets (from + window_ns) n records

-- The counts with the packets of the records added to those of their windows.
counted : ℕ → List ℕ → List PacingRecord → List ℕ
counted from [] records = []
counted from (c ∷ counts) records =
    (c + packets_between from (from + window_ns) records)
    ∷ counted (from + window_ns) counts records

counted-nil : (from : ℕ) (counts : List ℕ) → counted from counts [] ≡ counts
unfolding counted packets_between
counted-nil from [] = refl
counted-nil from (c ∷ counts) =
    ap₂ (λ n ns. n ∷ ns) (omega arith) (counted-nil (from + window_ns) counts)

counted_early :
    (from : ℕ) (counts : List ℕ) (r : PacingRecord) (records : List PacingRecord)
    → r.actual < from
    → counted from counts (r ∷ records) ≡ counted from counts records
unfolding counted packets_between
counted_early from [] r records early = refl
counted_early from (c ∷ counts) r records early =
    ap₂ (λ n ns. n ∷ ns) (ground arith)
      (counted_early (from + window_ns) counts r records (omega arith))

counted_late :
    (from : ℕ) (counts : List ℕ) (r : PacingRecord) (records : List PacingRecord)
    → from + length counts * window_ns ≤ r.actual
    → counted from counts (r ∷ records) ≡ counted from counts records
unfolding counted packets_between
counted_late from [] r records late = refl
counted_late from (c ∷ counts) r records late =
    ap₂ (λ n ns. n ∷ ns) (ground arith)
      (counted_late (from + window_ns) counts r records (omega arith))

counted-add_at :
    (from index : ℕ) (counts : List ℕ) (r : PacingRecord) (records : List PacingRecord)
    → from ≤ r.actual
    → (r.actual - from) / window_ns ≡ index
    → counted from (add_at index r.count counts) records ≡ counted from counts (r ∷ records)
unfolding counted packets_between
counted-add_at from index [] r records after at = refl
counted-add_at from zero (c ∷ counts) r records after at =
    let inside : r.actual < from + window_ns = omega (arith, at) in
    ap₂ (λ n ns. n ∷ ns) (ground (arith, inside, after))
      (sym (counted_early (from + window_ns) counts r records inside))
counted-add_at from (suc index) (c ∷ counts) r records after at =
    let behind : from + window_ns ≤ r.actual = omega (arith, at) in
    ap₂ (λ n ns. n ∷ ns) (ground (arith, behind))
      (counted-add_at (from + window_ns) index counts r records behind (omega (arith, at, behind)))

outside-counted :
    (from n : ℕ) (counts : List ℕ) (r : PacingRecord) (records : List PacingRecord)
    → length counts ≡ n
    → is_interior from n r ≡ false
    → counted from counts (r ∷ records) ≡ counted from counts records
outside-counted from n counts r records size outside = elim (Bool-cases (leb from r.actual)) [
  | inl after ↦ counted_late from counts r records (ground (arith, size, outside, after))
  | inr early ↦ counted_early from counts r records (ground (arith, early))
]

fill_windows-counted :
    (from n : ℕ) (counts : List ℕ) (records : List PacingRecord)
    → length counts ≡ n
    → (fill_windows from n counts records).0 ≡ counted from counts records
unfolding fill_windows
fill_windows-counted from n counts [] size = sym (counted-nil from counts)
fill_windows-counted from n counts (r ∷ records) size = elim (Bool-cases (is_interior from n r)) [
  | inl inside ↦
      let index = (r.actual - from) / window_ns in
      let filled = add_at index r.count counts in
      rw inside (
        fill_windows-counted from n filled records (length-add_at index r.count counts ∙ size)
        ∙ counted-add_at from index counts r records (ground (arith, inside)) refl)
  | inr outside ↦ rw outside (
      fill_windows-counted from n counts records size
      ∙ sym (outside-counted from n counts r records size outside))
]

counted-zeros :
    (from n : ℕ) (records : List PacingRecord)
    → counted from (zeros n) records ≡ window_packets from n records
unfolding counted window_packets
counted-zeros from zero records = refl
counted-zeros from (suc n) records =
    ap₂ (λ n ns. n ∷ ns) (omega arith) (counted-zeros (from + window_ns) n records)

-- The counts are the packets of the windows.
pub windows_of-window_packets :
    (sender : Schedule) (records : List PacingRecord)
    → (windows_of sender records).0
      ≡ window_packets (sender.start_mono_ns + edge_ns) (window_count_of sender) records
windows_of-window_packets sender records =
    let from = sender.start_mono_ns + edge_ns in
    let n = window_count_of sender in
    fill_windows-counted from n (zeros n) records (length-zeros n) ∙ counted-zeros from n records

-- The records inside the windows are kept, in their order.
pub fill_windows-interior :
    (from n : ℕ) (counts : List ℕ) (records : List PacingRecord)
    → (fill_windows from n counts records).1 ≡ filter (is_interior from n) records
unfolding fill_windows
fill_windows-interior from n counts [] = refl
fill_windows-interior from n counts (r ∷ records) = elim (Bool-cases (is_interior from n r)) [
  | inl inside ↦ rw inside (
      ap (λ rs. r ∷ rs)
        (fill_windows-interior from n (add_at ((r.actual - from) / window_ns) r.count counts)
          records))
  | inr outside ↦ rw outside (fill_windows-interior from n counts records)
]
