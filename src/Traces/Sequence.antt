-- ===== src/Traces/Sequence.antt =====
-- `sequence_statistics` (analysis/latency_utils.py): gaps, duplicates and reordering of the sequence numbers of
-- a trace, in the order of arrival. The numbers are unsigned, so `max(0, right - left - 1)` is the
-- subtraction of ℕ.
use net_latency_lab.Base.{
  ℕ, suc, ◌+◌, ◌-◌, ◌<◌, ◌≡◌, refl, min, max, Bool, not, ◌&&◌, List, [], ◌∷◌, ltb, ◌==◌, length,
  any, contains, if◌then◌else◌, arith,
}

-- The dictionary that the function returns.
pub record SequenceStatistics : Type 0 where
  pub sequence_gap_loss : ℕ
  pub duplicates : ℕ
  pub reordered : ℕ

-- `sorted(set(values))`
unfoldable pub insert_unique : ℕ → List ℕ → List ℕ
insert_unique v [] = v ∷ []
insert_unique v (u ∷ us) =
    let rest = insert_unique v us in
    if ltb v u then v ∷ u ∷ us else if v == u then u ∷ us else u ∷ rest

unfoldable pub sorted_set : List ℕ → List ℕ
sorted_set [] = []
sorted_set (v ∷ vs) = insert_unique v (sorted_set vs)

unfoldable pub gaps : List ℕ → ℕ
gaps [] = 0
gaps (u ∷ []) = 0
gaps (u ∷ w ∷ us) = w - u - 1 + gaps (w ∷ us)

-- The loop over the values: the numbers that are new and below the highest so far.
unfoldable pub count_reordered : ℕ → List ℕ → List ℕ → ℕ
count_reordered high_watermark seen [] = 0
count_reordered high_watermark seen (v ∷ vs) =
    let rest = count_reordered (max high_watermark v) (v ∷ seen) vs in
    if not (contains v seen) && ltb v high_watermark then suc rest else rest

unfoldable pub sequence_statistics : List ℕ → SequenceStatistics
sequence_statistics [] = record { sequence_gap_loss = 0; duplicates = 0; reordered = 0 }
sequence_statistics (v ∷ vs) = record {
  sequence_gap_loss = gaps (sorted_set (v ∷ vs));
  duplicates = length (v ∷ vs) - length (sorted_set (v ∷ vs));
  reordered = count_reordered v [] (v ∷ vs);
}

-- The strictly ascending lists from `lo` to `hi`.
IsRange : List ℕ → ℕ → ℕ → Type 0
IsRange [] lo hi = ⊥
IsRange (u ∷ []) lo hi = (u ≡ lo) × (u ≡ hi)
IsRange (u ∷ w ∷ us) lo hi = (u ≡ lo) × (u < w) × IsRange (w ∷ us) w hi

pub minimum : ℕ → List ℕ → ℕ
minimum v [] = v
minimum v (w ∷ vs) = min v (minimum w vs)

pub maximum : ℕ → List ℕ → ℕ
maximum v [] = v
maximum v (w ∷ vs) = max v (maximum w vs)

insert_unique-IsRange :
    (v : ℕ) (us : List ℕ) (lo hi : ℕ)
    → IsRange us lo hi
    → IsRange (insert_unique v us) (min v lo) (max v hi)
unfolding insert_unique IsRange
insert_unique-IsRange v [] lo hi r = ground arith
insert_unique-IsRange v (u ∷ []) lo hi r = ground arith
insert_unique-IsRange v (u ∷ w ∷ us) lo hi (here, above, r) =
    let ih = insert_unique-IsRange v (w ∷ us) w hi r in ground (arith, ih)

sorted_set-IsRange :
    (v : ℕ) (vs : List ℕ) → IsRange (sorted_set (v ∷ vs)) (minimum v vs) (maximum v vs)
unfolding sorted_set insert_unique IsRange minimum maximum
sorted_set-IsRange v [] = (refl, refl)
sorted_set-IsRange v (w ∷ vs) =
    insert_unique-IsRange v (sorted_set (w ∷ vs)) (minimum w vs) (maximum w vs)
      (sorted_set-IsRange w vs)

gaps-IsRange : (us : List ℕ) (lo hi : ℕ) → IsRange us lo hi → gaps us + length us + lo ≡ hi + 1
unfolding gaps IsRange
gaps-IsRange [] lo hi r = ground arith
gaps-IsRange (u ∷ []) lo hi r = ground arith
gaps-IsRange (u ∷ w ∷ us) lo hi (here, above, r) = ground (arith, gaps-IsRange (w ∷ us) w hi r)

length-insert_unique : (v : ℕ) (us : List ℕ) → length (insert_unique v us) < 2 + length us
unfolding insert_unique
length-insert_unique v [] = ground arith
length-insert_unique v (u ∷ us) = ground (arith, length-insert_unique v us)

length-sorted_set : (vs : List ℕ) → length (sorted_set vs) < 1 + length vs
unfolding sorted_set
length-sorted_set [] = ground arith
length-sorted_set (v ∷ vs) =
    ground (arith, length-sorted_set vs, length-insert_unique v (sorted_set vs))

-- In a trace that holds a record, the lost numbers and the distinct ones, which are the records less the
-- duplicates, fill the range from the lowest number to the highest.
pub sequence_statistics_fills :
    (v : ℕ) (vs : List ℕ)
    → (sequence_statistics (v ∷ vs)).sequence_gap_loss + length (v ∷ vs) + minimum v vs
      ≡ maximum v vs + 1 + (sequence_statistics (v ∷ vs)).duplicates
unfolding sequence_statistics
sequence_statistics_fills v vs =
    let fill =
      gaps-IsRange (sorted_set (v ∷ vs)) (minimum v vs) (maximum v vs) (sorted_set-IsRange v vs) in
    let most = length-sorted_set (v ∷ vs) in omega arith

-- The count without a watermark: a number that has not arrived before and is below one that has.
pub is_late : List ℕ → ℕ → Bool
is_late earlier v = not (contains v earlier) && any (λ w. ltb v w) earlier

pub late_arrivals : List ℕ → List ℕ → ℕ
late_arrivals earlier [] = 0
late_arrivals earlier (v ∷ vs) =
    let rest = late_arrivals (v ∷ earlier) vs in if is_late earlier v then suc rest else rest

count_reordered_lem :
    (high : ℕ) (seen vs : List ℕ)
    → ((u : ℕ) → ltb u high ≡ any (λ w. ltb u w) seen)
    → count_reordered high seen vs ≡ late_arrivals seen vs
unfolding count_reordered late_arrivals is_late
count_reordered_lem high seen [] h = refl
count_reordered_lem high seen (v ∷ vs) h =
    let ih = count_reordered_lem (max high v) (v ∷ seen) vs (λ u. let e = h u in ground arith) in
    let e = h v in ground arith

-- The watermark is exact: `reordered` counts the records whose number has not arrived before and is below some
-- number that has.
pub sequence_statistics-reordered :
    (values : List ℕ) → (sequence_statistics values).reordered ≡ late_arrivals [] values
unfolding sequence_statistics late_arrivals count_reordered is_late
sequence_statistics-reordered [] = refl
sequence_statistics-reordered (v ∷ vs) =
    ground (arith, count_reordered_lem v (v ∷ []) vs (λ u. ground arith))
