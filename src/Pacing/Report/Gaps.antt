-- ===== src/Pacing/Report/Gaps.antt =====
-- The gaps between the records in `analyze_pacing_trace` (main.py).
use net_latency_lab.Base.{
  ℕ, ◌-◌, ◌≤◌, ◌≡◌, refl, ap, subst, max, true, List, [], ◌∷◌, All, contains, arith,
}
use net_latency_lab.Pacing.Report.{PacingRecord, max_gap, max_unexplained_gap}

abbrev pub gap : PacingRecord → PacingRecord → ℕ
gap left right = right.actual - left.actual

-- What of a gap the schedule does not explain.
abbrev pub unexplained : PacingRecord → PacingRecord → ℕ
unexplained left right = gap left right - (right.scheduled - left.scheduled)

-- A measure of each two neighbours.
abbrev pub between_neighbours : (PacingRecord → PacingRecord → ℕ) → List PacingRecord → List ℕ
between_neighbours measure [] = []
between_neighbours measure (left ∷ []) = []
between_neighbours measure (left ∷ right ∷ records) =
    measure left right ∷ between_neighbours measure (right ∷ records)

-- The greatest of the numbers, 0 if there is none.
abbrev pub IsGreatest : List ℕ → ℕ → Type 0
IsGreatest [] n = n ≡ 0
IsGreatest (m ∷ ms) n = All (λ k. k ≤ n) (m ∷ ms) × (contains n (m ∷ ms) ≡ true)

greatest : List ℕ → ℕ
greatest [] = 0
greatest (m ∷ ms) = max m (greatest ms)

All-weaken : (a b : ℕ) (ms : List ℕ) → a ≤ b → All (λ k. k ≤ a) ms → All (λ k. k ≤ b) ms
All-weaken a b [] le h = tt
All-weaken a b (m ∷ ms) le h = (omega (arith, h.0), All-weaken a b ms le h.1)

greatest-above : (ms : List ℕ) → All (λ k. k ≤ greatest ms) ms
unfolding greatest
greatest-above [] = tt
greatest-above (m ∷ ms) = (
  omega arith,
  All-weaken (greatest ms) (max m (greatest ms)) ms (omega arith) (greatest-above ms),
)

contains-greatest : (m : ℕ) (ms : List ℕ) → contains (greatest (m ∷ ms)) (m ∷ ms) ≡ true
unfolding greatest
contains-greatest m [] = ground arith
contains-greatest m (k ∷ ms) = ground (arith, contains-greatest k ms)

greatest-IsGreatest : (ms : List ℕ) → IsGreatest ms (greatest ms)
unfolding greatest
greatest-IsGreatest [] = refl
greatest-IsGreatest (m ∷ ms) = (greatest-above (m ∷ ms), contains-greatest m ms)

greatest-gap :
    (records : List PacingRecord) → greatest (between_neighbours gap records) ≡ max_gap records
unfolding greatest max_gap
greatest-gap [] = refl
greatest-gap (left ∷ []) = refl
greatest-gap (left ∷ right ∷ records) = ap (max (gap left right)) (greatest-gap (right ∷ records))

greatest-unexplained :
    (records : List PacingRecord)
    → greatest (between_neighbours unexplained records) ≡ max_unexplained_gap records
unfolding greatest max_unexplained_gap
greatest-unexplained [] = refl
greatest-unexplained (left ∷ []) = refl
greatest-unexplained (left ∷ right ∷ records) =
    ap (max (unexplained left right)) (greatest-unexplained (right ∷ records))

pub max_gap-IsGreatest :
    (records : List PacingRecord) → IsGreatest (between_neighbours gap records) (max_gap records)
max_gap-IsGreatest records =
    subst (IsGreatest (between_neighbours gap records)) (greatest-gap records)
      (greatest-IsGreatest (between_neighbours gap records))

pub max_unexplained_gap-IsGreatest :
    (records : List PacingRecord)
    → IsGreatest (between_neighbours unexplained records) (max_unexplained_gap records)
max_unexplained_gap-IsGreatest records =
    subst (IsGreatest (between_neighbours unexplained records)) (greatest-unexplained records)
      (greatest-IsGreatest (between_neighbours unexplained records))
