-- ===== src/Campaign/Eligibility/Rates.antt =====
-- Which rates `qualification_rates` (main.py) returns, and in what order.
use net_latency_lab.Base.{
  contains, ℕ, ◌≡◌, refl, ◌∙◌, ap₂, Bool, true, false, not, ◌&&◌, ◌||◌, Option, none, some, List,
  [], ◌∷◌, ◌++◌, all, any, ◌==◌, if◌then◌else◌, arith, filter,
}
use net_latency_lab.Campaign.Schedule.{RunTuple}
use net_latency_lab.Campaign.Eligibility.{
  freeze, RunMetadata, passed_of, is_qualifying, ByRate, append_at, group, insert_sorted, sorted,
  all_passed, eligible_rates, qualification_rates,
}

abbrev pub lookup : ℕ → ByRate → Option (List RunMetadata)
lookup rate [] = none
lookup rate ((r, runs) ∷ by_rate) = if rate == r then some runs else lookup rate by_rate

abbrev pub NodupRates : ByRate → Type 0
NodupRates [] = Unit
NodupRates ((r, runs) ∷ by_rate) = (lookup r by_rate ≡ none) × NodupRates by_rate

-- Whether a rate has runs, and whether those that it has passed.
abbrev seen : Option (List RunMetadata) → Bool
seen (some (run ∷ runs)) = true
seen _ = false

abbrev clean : Option (List RunMetadata) → Bool
clean none = true
clean (some runs) = all passed_of runs

all-append {ℓ} :
    {A : Type ℓ} (p : A → Bool) (xs ys : List A) → all p (xs ++ ys) ≡ (all p xs && all p ys)
all-append p [] ys = refl
all-append p (x ∷ xs) ys = ground (arith, all-append p xs ys)

-- The group of a rate after one more run.
abbrev grown : Option (List RunMetadata) → RunMetadata → Option (List RunMetadata)
grown none m = some (m ∷ [])
grown (some runs) m = some (runs ++ m ∷ [])

lookup-append_at :
    (r rate : ℕ) (m : RunMetadata) (by_rate : ByRate)
    → lookup r (append_at rate m by_rate)
      ≡ (if rate == r then grown (lookup r by_rate) m else lookup r by_rate)
unfolding append_at
lookup-append_at r rate m [] = ground arith
lookup-append_at r rate m (e ∷ by_rate) = ground (arith, lookup-append_at r rate m by_rate)

append_at-NodupRates :
    (rate : ℕ) (m : RunMetadata) (by_rate : ByRate)
    → NodupRates by_rate
    → NodupRates (append_at rate m by_rate)
unfolding append_at
append_at-NodupRates rate m [] u = ground arith
append_at-NodupRates rate m (e ∷ by_rate) u =
    ground (arith, append_at-NodupRates rate m by_rate u.1, lookup-append_at e.0 rate m by_rate)

pub group-NodupRates :
    (ms : List RunMetadata) (by_rate : ByRate) → NodupRates by_rate → NodupRates (group ms by_rate)
unfolding group
group-NodupRates [] by_rate u = u
group-NodupRates (m ∷ ms) by_rate u =
    group-NodupRates ms _ (ground (arith, append_at-NodupRates m.requested_rate_pps m by_rate u))

seen-grown : (o : Option (List RunMetadata)) (m : RunMetadata) → seen (grown o m) ≡ true
seen-grown none m = refl
seen-grown (some []) m = refl
seen-grown (some (x ∷ xs)) m = refl

clean-grown :
    (o : Option (List RunMetadata)) (m : RunMetadata) → clean (grown o m) ≡ (clean o && passed_of m)
clean-grown none m = ground arith
clean-grown (some xs) m = ground (arith, all-append passed_of xs (m ∷ []))

-- A qualification run at the rate.
abbrev pub measures : ℕ → RunMetadata → Bool
measures rate m = is_qualifying m && m.requested_rate_pps == rate

seen-group :
    (r : ℕ) (ms : List RunMetadata) (by_rate : ByRate)
    → seen (lookup r (group ms by_rate)) ≡ (seen (lookup r by_rate) || any (measures r) ms)
unfolding group
seen-group r [] by_rate = ground arith
seen-group r (m ∷ ms) by_rate =
    let rate = m.requested_rate_pps in
    let next = if is_qualifying m then append_at rate m by_rate else by_rate in
    ground (
      arith,
      seen-group r ms next,
      lookup-append_at r rate m by_rate,
      seen-grown (lookup r by_rate) m,
    )

clean-group :
    (r : ℕ) (ms : List RunMetadata) (by_rate : ByRate)
    → clean (lookup r (group ms by_rate))
      ≡ (clean (lookup r by_rate) && all (λ m. not (measures r m) || passed_of m) ms)
unfolding group
clean-group r [] by_rate = ground arith
clean-group r (m ∷ ms) by_rate =
    let rate = m.requested_rate_pps in
    let next = if is_qualifying m then append_at rate m by_rate else by_rate in
    ground (
      arith,
      clean-group r ms next,
      lookup-append_at r rate m by_rate,
      clean-grown (lookup r by_rate) m,
    )

-- An entry for the rate, all of whose runs passed.
abbrev hits : ℕ → ByRate → Bool
hits r [] = false
hits r ((rate, runs) ∷ by_rate) = (r == rate && all_passed runs) || hits r by_rate

hits-insert_sorted :
    (r : ℕ) (e : ℕ × List RunMetadata) (by_rate : ByRate)
    → hits r (insert_sorted e by_rate) ≡ hits r (e ∷ by_rate)
unfolding insert_sorted
hits-insert_sorted r e [] = refl
hits-insert_sorted r e (f ∷ by_rate) = ground (arith, hits-insert_sorted r e by_rate)

hits-sorted : (r : ℕ) (by_rate : ByRate) → hits r (sorted by_rate) ≡ hits r by_rate
unfolding sorted
hits-sorted r [] = refl
hits-sorted r (e ∷ by_rate) =
    ground (arith, hits-insert_sorted r e (sorted by_rate), hits-sorted r by_rate)

contains-eligible_rates :
    (r : ℕ) (by_rate : ByRate) → contains r (eligible_rates by_rate) ≡ hits r by_rate
unfolding eligible_rates
contains-eligible_rates r [] = refl
contains-eligible_rates r (e ∷ by_rate) = ground (arith, contains-eligible_rates r by_rate)

hits-none : (r : ℕ) (by_rate : ByRate) → lookup r by_rate ≡ none → hits r by_rate ≡ false
hits-none r [] h = refl
hits-none r (e ∷ by_rate) h = ground (arith, hits-none r by_rate)

all_passed_lem :
    (runs : List RunMetadata) → all_passed runs ≡ (seen (some runs) && clean (some runs))
all_passed_lem [] = refl
all_passed_lem (run ∷ runs) = refl

hits-lookup :
    (r : ℕ) (by_rate : ByRate)
    → NodupRates by_rate
    → hits r by_rate ≡ (seen (lookup r by_rate) && clean (lookup r by_rate))
hits-lookup r [] u = refl
hits-lookup r (e ∷ by_rate) u =
    ground (arith, hits-lookup r by_rate u.1, hits-none r by_rate, all_passed_lem e.1)

-- A rate is returned exactly when some qualification run was made at it and every one passed.
pub contains-qualification_rates :
    (rate : ℕ) (run_metadata : List RunMetadata)
    → contains rate (qualification_rates run_metadata) ≡ (
        any (measures rate) run_metadata
        && all (λ m. not (measures rate m) || passed_of m) run_metadata)
unfolding qualification_rates
contains-qualification_rates rate run_metadata =
    let by_rate = group run_metadata [] in
    contains-eligible_rates rate (sorted by_rate)
    ∙ hits-sorted rate by_rate
    ∙ hits-lookup rate by_rate (group-NodupRates run_metadata [] tt)
    ∙ ap₂ (λ a b. a && b) (seen-group rate run_metadata []) (clean-group rate run_metadata [])

-- Whether the frozen comparative order keeps a run.
abbrev pub is_qualified : (RunTuple → Bool) → List RunMetadata → RunTuple → Bool
is_qualified uses_qualified run_metadata item =
    not (uses_qualified item)
    || (any (measures item.rate) run_metadata
        && all (λ m. not (measures item.rate m) || passed_of m) run_metadata)

-- Once there are qualification results, the frozen order is the planned comparative order less exactly those
-- runs that ask for qualified rates and whose rate has no qualification run, or one that did not pass; all other
-- runs are kept, in their order and as often as they were planned.
pub freeze-qualification_rates :
    (uses_qualified : RunTuple → Bool) (run_metadata : List RunMetadata)
    (comparative : List RunTuple)
    → freeze uses_qualified (some (qualification_rates run_metadata)) comparative
      ≡ filter (is_qualified uses_qualified run_metadata) comparative
unfolding freeze
freeze-qualification_rates uses_qualified run_metadata [] = refl
freeze-qualification_rates uses_qualified run_metadata (item ∷ comparative) = ground (
  arith,
  freeze-qualification_rates uses_qualified run_metadata comparative,
  contains-qualification_rates item.rate run_metadata,
)
