-- ===== src/Pacing/Rank.antt =====
-- `nearest_rank` (main.py).
use net_latency_lab.Base.{
  ℕ, zero, suc, ◌+◌, ◌-◌, ◌<◌, ◌≤◌, min, ◌≡◌, refl, List, [], ◌∷◌, length, ltb, leb, if◌then◌else◌,
  arith,
}
use net_latency_lab.Python.Error.{Error, Result, ok, err}

-- `sorted(values)`
unfoldable pub insert_value : ℕ → List ℕ → List ℕ
insert_value v [] = v ∷ []
insert_value v (u ∷ us) = let rest = insert_value v us in if leb v u then v ∷ u ∷ us else u ∷ rest

unfoldable pub sorted_values : List ℕ → List ℕ
sorted_values [] = []
sorted_values (v ∷ vs) = insert_value v (sorted_values vs)

-- `ordered[index]`
abbrev pub element_at : List ℕ → ℕ → Result ℕ
element_at [] index = err Error.index_error
element_at (v ∷ vs) zero = ok v
element_at (v ∷ vs) (suc index) = element_at vs index

-- `rank` is `math.ceil(quantile * len(values))`, which is a product in floating point. It is not negative, so
-- that `max(0, … - 1)` is the subtraction of ℕ.
unfoldable pub nearest_rank : (ℕ → ℕ) → List ℕ → Result ℕ
nearest_rank rank [] = err (Error.value_error "cannot calculate a percentile of an empty sample")
nearest_rank rank (v ∷ vs) =
    element_at (sorted_values (v ∷ vs)) (min (length (v ∷ vs) - 1) (rank (length (v ∷ vs)) - 1))

-- How many values are below a bound, or at most the bound.
abbrev pub count_below : ℕ → List ℕ → ℕ
count_below bound [] = 0
count_below bound (v ∷ vs) =
    let rest = count_below bound vs in if ltb v bound then suc rest else rest

abbrev pub count_within : ℕ → List ℕ → ℕ
count_within bound [] = 0
count_within bound (v ∷ vs) =
    let rest = count_within bound vs in if leb v bound then suc rest else rest

count_below-insert_value :
    (bound v : ℕ) (us : List ℕ) → count_below bound (insert_value v us) ≡ count_below bound (v ∷ us)
unfolding insert_value
count_below-insert_value bound v [] = refl
count_below-insert_value bound v (u ∷ us) = ground (arith, count_below-insert_value bound v us)

count_below-sorted_values :
    (bound : ℕ) (vs : List ℕ) → count_below bound (sorted_values vs) ≡ count_below bound vs
unfolding sorted_values
count_below-sorted_values bound [] = refl
count_below-sorted_values bound (v ∷ vs) =
    ground (
      arith,
      count_below-insert_value bound v (sorted_values vs),
      count_below-sorted_values bound vs,
    )

count_within-insert_value :
    (bound v : ℕ) (us : List ℕ)
    → count_within bound (insert_value v us) ≡ count_within bound (v ∷ us)
unfolding insert_value
count_within-insert_value bound v [] = refl
count_within-insert_value bound v (u ∷ us) = ground (arith, count_within-insert_value bound v us)

count_within-sorted_values :
    (bound : ℕ) (vs : List ℕ) → count_within bound (sorted_values vs) ≡ count_within bound vs
unfolding sorted_values
count_within-sorted_values bound [] = refl
count_within-sorted_values bound (v ∷ vs) = ground (
  arith,
  count_within-insert_value bound v (sorted_values vs),
  count_within-sorted_values bound vs,
)

length-insert_value : (v : ℕ) (us : List ℕ) → length (insert_value v us) ≡ 1 + length us
unfolding insert_value
length-insert_value v [] = ground arith
length-insert_value v (u ∷ us) = ground (arith, length-insert_value v us)

length-sorted_values : (vs : List ℕ) → length (sorted_values vs) ≡ length vs
unfolding sorted_values
length-sorted_values [] = refl
length-sorted_values (v ∷ vs) =
    ground (arith, length-insert_value v (sorted_values vs), length-sorted_values vs)

-- Each value is at most the next.
AreRising : List ℕ → Type 0
AreRising [] = Unit
AreRising (v ∷ []) = Unit
AreRising (v ∷ w ∷ vs) = (v ≤ w) × AreRising (w ∷ vs)

insert_value-AreRising : (v : ℕ) (us : List ℕ) → AreRising us → AreRising (insert_value v us)
unfolding insert_value AreRising
insert_value-AreRising v [] r = tt
insert_value-AreRising v (u ∷ []) r = ground arith
insert_value-AreRising v (u ∷ w ∷ us) (first, r) =
    ground (arith, insert_value-AreRising v (w ∷ us) r)

sorted_values-AreRising : (vs : List ℕ) → AreRising (sorted_values vs)
unfolding sorted_values AreRising
sorted_values-AreRising [] = tt
sorted_values-AreRising (v ∷ vs) =
    insert_value-AreRising v (sorted_values vs) (sorted_values-AreRising vs)

-- Nothing in a rising list is below its first value.
none_below : (b v : ℕ) (vs : List ℕ) → b ≤ v → AreRising (v ∷ vs) → count_below b (v ∷ vs) ≡ 0
unfolding AreRising
none_below b v [] le r = ground arith
none_below b v (w ∷ vs) le (first, r) = ground (arith, none_below b w vs (omega arith) r)

tail-AreRising : (v : ℕ) (vs : List ℕ) → AreRising (v ∷ vs) → AreRising vs
unfolding AreRising
tail-AreRising v [] r = tt
tail-AreRising v (w ∷ vs) (first, r) = r

element_at-above :
    (v : ℕ) (vs : List ℕ) (index x : ℕ)
    → AreRising (v ∷ vs)
    → element_at (v ∷ vs) index ≡ ok x
    → v ≤ x
unfolding AreRising
element_at-above v vs zero x r e = ground (arith, e)
element_at-above v [] (suc index) x r e = cc
element_at-above v (w ∷ vs) (suc index) x (first, r) e =
    omega (arith, element_at-above w vs index x r e)

element_at-ranked :
    (vs : List ℕ) (index x : ℕ)
    → AreRising vs
    → element_at vs index ≡ ok x
    → (count_below x vs ≤ index) × (index + 1 ≤ count_within x vs)
element_at-ranked [] index x r e = cc
element_at-ranked (v ∷ vs) zero x r e =
    let same : v ≡ x = ground (arith, e) in
    let none : count_below x (v ∷ vs) ≡ 0 = none_below x v vs (omega arith) r in
    (omega arith, ground (arith, same))
element_at-ranked (v ∷ vs) (suc index) x r e =
    let above = element_at-above v vs (suc index) x r e in
    let ih = element_at-ranked vs index x (tail-AreRising v vs r) e in ground (arith, above, ih)

element_at-total :
    (vs : List ℕ) (index : ℕ) → index < length vs → (x : ℕ) × (element_at vs index ≡ ok x)
element_at-total [] index h = absurd (omega arith)
element_at-total (v ∷ vs) zero h = (v, refl)
element_at-total (v ∷ vs) (suc index) h = element_at-total vs index (omega arith)

-- The value at the rank `k`, one less than the rank asked for and at most the last index: at most `k` values of the
-- sample are below it, and more than `k` are not above it.
pub IsRanked : (k : ℕ) → List ℕ → ℕ → Type 0
IsRanked k values x = (count_below x values ≤ k) × (k + 1 ≤ count_within x values)

-- Of a sample that is not empty the percentile exists, and stands at its rank in the sample.
pub nearest_rank-IsRanked :
    (rank : ℕ → ℕ) (v : ℕ) (vs : List ℕ)
    → (x : ℕ) × (nearest_rank rank (v ∷ vs) ≡ ok x)
      × IsRanked (min (length (v ∷ vs) - 1) (rank (length (v ∷ vs)) - 1)) (v ∷ vs) x
unfolding nearest_rank IsRanked
nearest_rank-IsRanked rank v vs =
    let k = min (length (v ∷ vs) - 1) (rank (length (v ∷ vs)) - 1) in
    let size = length-sorted_values (v ∷ vs) in
    let (x, e) = element_at-total (sorted_values (v ∷ vs)) k (ground (arith, size)) in
    let ranked =
      element_at-ranked (sorted_values (v ∷ vs)) k x (sorted_values-AreRising (v ∷ vs)) e in
    let below = count_below-sorted_values x (v ∷ vs) in
    let within = count_within-sorted_values x (v ∷ vs) in
    (x, e, (omega (arith, ranked.0, below), omega (arith, ranked.1, within)))
