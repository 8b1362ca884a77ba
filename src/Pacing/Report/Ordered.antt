-- ===== src/Pacing/Report/Ordered.antt =====
-- The order into which `analyze_pacing_trace` (main.py) brings the records of a trace.
use mathlib.Core.List.{Perm}
use mathlib.Core.List.Perm
use net_latency_lab.Base.{
  ◌≤◌, ◌<◌, ◌≡◌, refl, ◌⊎◌, inl, inr, true, false, List, [], ◌∷◌, map, All, Bool-cases, arith,
}
use net_latency_lab.Base.Int.{ℤ, pos}
use net_latency_lab.Python.Error.{ok}
use net_latency_lab.Pacing.Report.{
  PacingRecord, read_row, read_rows, precedes, insert_record, sorted_records,
}

-- The three columns of a record.
abbrev pub row_of : PacingRecord → ℤ × ℤ × ℤ
row_of r = (pos r.actual, pos r.scheduled, pos r.count)

-- A trace of records with packets is read as it was written.
pub read_rows-map :
    (records : List PacingRecord)
    → All (λ r. 0 < r.count) records
    → read_rows (map row_of records) ≡ ok records
unfolding read_rows read_row
read_rows-map [] positive = refl
read_rows-map (r ∷ records) positive = ground (arith, read_rows-map records positive.1)

-- By the time, then by the time of the schedule, then by the packets.
abbrev pub IsBefore : PacingRecord → PacingRecord → Type 0
IsBefore a b =
    (a.actual < b.actual)
    ⊎ ((a.actual ≡ b.actual)
        × ((a.scheduled < b.scheduled) ⊎ ((a.scheduled ≡ b.scheduled) × (a.count ≤ b.count))))

abbrev pub AreOrdered : List PacingRecord → Type 0
AreOrdered [] = Unit
AreOrdered (a ∷ []) = Unit
AreOrdered (a ∷ b ∷ records) = IsBefore a b × AreOrdered (b ∷ records)

precedes-IsBefore : (a b : PacingRecord) → precedes a b ≡ true → IsBefore a b
precedes-IsBefore a b h = ground arith

other-IsBefore : (a b : PacingRecord) → precedes a b ≡ false → IsBefore b a
other-IsBefore a b h = ground arith

insert_record-AreOrdered :
    (r : PacingRecord) (records : List PacingRecord)
    → AreOrdered records
    → AreOrdered (insert_record r records)
unfolding insert_record
insert_record-AreOrdered r [] ordered = tt
insert_record-AreOrdered r (s ∷ []) ordered = elim (Bool-cases (precedes r s)) [
  | inl first ↦ rw first ((precedes-IsBefore r s first, tt))
  | inr later ↦ rw later ((other-IsBefore r s later, tt))
]
insert_record-AreOrdered r (s ∷ t ∷ records) ordered =
    let ih = insert_record-AreOrdered r (t ∷ records) ordered.1 in
    elim (Bool-cases (precedes r s)) [
      | inl first ↦ rw first ((precedes-IsBefore r s first, ordered))
      | inr later ↦ elim (Bool-cases (precedes r t)) [
        | inl next ↦
            rw (later, next) ((other-IsBefore r s later, (precedes-IsBefore r t next, ordered.1)))
        | inr behind ↦ rw (later, behind) ((ordered.0, rw behind at ih))
      ]
    ]

pub sorted_records-AreOrdered : (records : List PacingRecord) → AreOrdered (sorted_records records)
unfolding sorted_records
sorted_records-AreOrdered [] = tt
sorted_records-AreOrdered (r ∷ records) =
    insert_record-AreOrdered r (sorted_records records) (sorted_records-AreOrdered records)

insert_record-Perm :
    (r : PacingRecord) (records : List PacingRecord) → Perm (insert_record r records) (r ∷ records)
unfolding insert_record
insert_record-Perm r [] = Perm.refl (r ∷ [])
insert_record-Perm r (s ∷ records) = elim (Bool-cases (precedes r s)) [
  | inl first ↦ rw first (Perm.refl (r ∷ s ∷ records))
  | inr later ↦
      rw later (Perm.trans (Perm.cons s (insert_record-Perm r records)) (Perm.swap r s records))
]

pub sorted_records-Perm : (records : List PacingRecord) → Perm (sorted_records records) records
unfolding sorted_records
sorted_records-Perm [] = Perm.refl []
sorted_records-Perm (r ∷ records) =
    Perm.trans (insert_record-Perm r (sorted_records records))
      (Perm.cons r (sorted_records-Perm records))
