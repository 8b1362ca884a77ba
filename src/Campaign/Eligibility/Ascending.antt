-- ===== src/Campaign/Eligibility/Ascending.antt =====
-- The order of the rates that `qualification_rates` (main.py) returns.
use net_latency_lab.Base.{ℕ, ◌<◌, ◌≡◌, ◌≢◌, refl, none, List, [], ◌∷◌, arith, All}
use net_latency_lab.Campaign.Eligibility.{
  RunMetadata, ByRate, group, insert_sorted, sorted, eligible_rates, qualification_rates,
}
use net_latency_lab.Campaign.Eligibility.Rates.{lookup, NodupRates, group-NodupRates}

-- Each rate is below all that follow it.
abbrev pub IsAscending : List ℕ → Type 0
IsAscending [] = Unit
IsAscending (r ∷ rates) = All (λ s. r < s) rates × IsAscending rates

abbrev Ascends : ByRate → Type 0
Ascends [] = Unit
Ascends (e ∷ by_rate) = All (λ f. e.0 < f.0) by_rate × Ascends by_rate

All-insert_sorted :
    (r : ℕ) (e : ℕ × List RunMetadata) (by_rate : ByRate)
    → r < e.0
    → All (λ f. r < f.0) by_rate
    → All (λ f. r < f.0) (insert_sorted e by_rate)
unfolding insert_sorted
All-insert_sorted r e [] lt h = (lt, tt)
All-insert_sorted r e (f ∷ by_rate) lt h = ground (arith, All-insert_sorted r e by_rate lt h.1)

All-lt_trans :
    (r s : ℕ) (by_rate : ByRate) → r < s → All (λ f. s < f.0) by_rate → All (λ f. r < f.0) by_rate
All-lt_trans r s [] lt h = tt
All-lt_trans r s (f ∷ by_rate) lt h = (omega arith, All-lt_trans r s by_rate lt h.1)

insert_sorted-Ascends :
    (e : ℕ × List RunMetadata) (by_rate : ByRate)
    → lookup e.0 by_rate ≡ none
    → Ascends by_rate
    → Ascends (insert_sorted e by_rate)
unfolding insert_sorted
insert_sorted-Ascends e [] n h = (tt, tt)
insert_sorted-Ascends e (f ∷ by_rate) n h = ground (
  arith,
  insert_sorted-Ascends e by_rate,
  All-insert_sorted f.0 e by_rate,
  All-lt_trans e.0 f.0 by_rate,
)

lookup-insert_sorted :
    (r : ℕ) (e : ℕ × List RunMetadata) (by_rate : ByRate)
    → lookup r by_rate ≡ none
    → r ≢ e.0
    → lookup r (insert_sorted e by_rate) ≡ none
unfolding insert_sorted
lookup-insert_sorted r e [] n h = ground arith
lookup-insert_sorted r e (f ∷ by_rate) n h = ground (arith, lookup-insert_sorted r e by_rate)

lookup-sorted :
    (r : ℕ) (by_rate : ByRate) → lookup r by_rate ≡ none → lookup r (sorted by_rate) ≡ none
unfolding sorted
lookup-sorted r [] n = refl
lookup-sorted r (e ∷ by_rate) n =
    ground (arith, lookup-sorted r by_rate, lookup-insert_sorted r e (sorted by_rate))

sorted-Ascends : (by_rate : ByRate) → NodupRates by_rate → Ascends (sorted by_rate)
unfolding sorted
sorted-Ascends [] u = tt
sorted-Ascends (e ∷ by_rate) u =
    insert_sorted-Ascends e (sorted by_rate) (lookup-sorted e.0 by_rate u.0)
      (sorted-Ascends by_rate u.1)

All-eligible_rates :
    (r : ℕ) (by_rate : ByRate)
    → All (λ f. r < f.0) by_rate
    → All (λ s. r < s) (eligible_rates by_rate)
unfolding eligible_rates
All-eligible_rates r [] h = tt
All-eligible_rates r (e ∷ by_rate) h = ground (arith, All-eligible_rates r by_rate h.1)

eligible_rates-IsAscending :
    (by_rate : ByRate) → Ascends by_rate → IsAscending (eligible_rates by_rate)
unfolding eligible_rates
eligible_rates-IsAscending [] h = tt
eligible_rates-IsAscending (e ∷ by_rate) h =
    ground (arith, eligible_rates-IsAscending by_rate h.1, All-eligible_rates e.0 by_rate h.0)

-- The rates come in ascending order, and none comes twice.
pub qualification_rates-IsAscending :
    (run_metadata : List RunMetadata) → IsAscending (qualification_rates run_metadata)
unfolding qualification_rates
qualification_rates-IsAscending run_metadata =
    let by_rate = group run_metadata [] in
    eligible_rates-IsAscending (sorted by_rate)
      (sorted-Ascends by_rate (group-NodupRates run_metadata [] tt))
