-- ===== src/Counters/Deltas/Reported.antt =====
-- What `counter_deltas` (main.py) reports of a counter: an entry for each name of either snapshot, with a delta
-- exactly when both snapshots have a value and no error.
use net_latency_lab.Base.{
  String, Bool, true, false, ◌||◌, Option, none, some, List, [], ◌∷◌, ◌≡◌, refl, ap, ◌↔◌, inl, inr,
  arith, Bool-cases,
}
use net_latency_lab.Base.Int.{ℤ, ◌-ℤ◌}
use net_latency_lab.Verdict.State.{lookup, has_error}
use net_latency_lab.Counters.Deltas.{
  Sample, CounterDelta, insert_name, insert_all, names_of, sample_or, difference, delta_entry,
  entry_at, entries_at, counter_deltas,
}
use text.Mathlib.Text.{◌==◌}
use text.Mathlib.TextEquality.{eq_iff}

names : {A : Type 0} → String → List (String × A) → Bool
names name [] = false
names name ((key, a) ∷ entries) = (key == name) || names name entries

is_in : String → List String → Bool
is_in name [] = false
is_in name (n ∷ ns) = (n == name) || is_in name ns

-- Inserting makes the name a member, and no other.
is_in-insert_name :
    (x name : String) (ns : List String)
    → is_in x (insert_name name ns) ≡ ((name == x) || is_in x ns)
unfolding is_in
is_in-insert_name x name [] = ground arith
is_in-insert_name x name (n ∷ ns) =
    let ih = is_in-insert_name x name ns in
    elim (Bool-cases (n == name)) [
      | inl same ↦ let e = (eq_iff n name).0 same in rw (same, e) (ground arith)
      | inr other ↦ ground (arith, ih)
    ]

is_in-insert_all :
    (x : String) (samples : List (String × Sample)) (ns : List String)
    → is_in x (insert_all samples ns) ≡ (names x samples || is_in x ns)
unfolding names
is_in-insert_all x [] ns = ground arith
is_in-insert_all x ((name, sample) ∷ samples) ns =
    ground (arith, is_in-insert_name x name (insert_all samples ns), is_in-insert_all x samples ns)

lookup-entries_at :
    (before after : List (String × Sample)) (x : String) (ns : List String)
    → is_in x ns ≡ true
    → lookup x (entries_at before after ns) ≡ some (entry_at before after x)
unfolding is_in
lookup-entries_at before after x [] h = cc
lookup-entries_at before after x (n ∷ ns) h = elim (Bool-cases (n == x)) [
  | inl same ↦
      let e = (eq_iff n x).0 same in
      rw (same) (ap (λ (m : String). some (entry_at before after m)) e)
  | inr other ↦ ground (arith, other, lookup-entries_at before after x ns)
]

lookup-entries_at-none :
    (before after : List (String × Sample)) (x : String) (ns : List String)
    → is_in x ns ≡ false
    → lookup x (entries_at before after ns) ≡ none
unfolding is_in
lookup-entries_at-none before after x [] h = refl
lookup-entries_at-none before after x (n ∷ ns) h =
    ground (arith, lookup-entries_at-none before after x ns)

lookup-names-none :
    (x : String) (samples : List (String × Sample))
    → names x samples ≡ false
    → lookup x samples ≡ none
unfolding names
lookup-names-none x [] h = refl
lookup-names-none x (entry ∷ samples) h = ground (arith, lookup-names-none x samples)

-- The snapshot has the value `a` for a counter, and no error.
pub IsRead : Option Sample → ℤ → Type 0
IsRead none a = ⊥
IsRead (some sample) a = (sample.value ≡ some a) × (has_error sample.error ≡ false)

-- The delta under a name, if the dict has the name and it is not None.
abbrev pub delta_in : Option CounterDelta → Option ℤ
delta_in none = none
delta_in (some entry) = entry.delta

pub IsMeasured : Option Sample → Option Sample → ℤ → Type 0
IsMeasured first second d = (a b : ℤ) × IsRead first a × IsRead second b × (b -ℤ a ≡ d)

difference-some :
    (first second : Option ℤ) (d : ℤ)
    → difference first second ≡ some d
    → (a b : ℤ) × (first ≡ some a) × (second ≡ some b) × (b -ℤ a ≡ d)
difference-some none second d h = cc
difference-some (some a) none d h = cc
difference-some (some a) (some b) d h = (a, b, refl, refl, ground arith)

entry-IsMeasured :
    (first second : Option Sample) (d : ℤ)
    → ((delta_entry
          (sample_or "missing before sample" first)
          (sample_or "missing after sample" second)).delta
        ≡ some d)
      ↔ IsMeasured first second d
unfolding delta_entry IsMeasured IsRead
entry-IsMeasured none second d = (λ h. cc, λ h. ground arith)
entry-IsMeasured (some first) none d = (λ h. ground arith, λ h. ground arith)
entry-IsMeasured (some first) (some second) d =
    let found = difference-some first.value second.value d in
    (
      λ h.
          let good : difference first.value second.value ≡ some d = ground arith in
          let (a, b, ea, eb, e) = found good in (a, b, (ea, ground arith), (eb, ground arith), e),
      λ h. let (a, b, (ea, ga), (eb, gb), e) = h in ground (arith, ea, ga, eb, gb, e),
    )

-- A counter gets the delta `d` exactly when both snapshots have a value and no error for it, and `d` is the
-- value after less the value before. So a probe that failed never counts as no change.
pub counter_deltas-IsMeasured :
    (before after : List (String × Sample)) (name : String) (d : ℤ)
    → (delta_in (lookup name (counter_deltas before after)) ≡ some d)
      ↔ IsMeasured (lookup name before) (lookup name after) d
unfolding counter_deltas names_of IsMeasured IsRead
counter_deltas-IsMeasured before after name d =
    let within = is_in-insert_all name before (insert_all after []) in
    let within_after = is_in-insert_all name after [] in
    elim (Bool-cases (is_in name (insert_all before (insert_all after [])))) [
      | inl known ↦
          rw (lookup-entries_at before after name _ known)
            (entry-IsMeasured (lookup name before) (lookup name after) d)
      | inr unknown ↦
          rw
            (
              lookup-entries_at-none before after name _ unknown,
              lookup-names-none name before (ground (arith, within, unknown)),
              lookup-names-none name after (ground (arith, within, within_after, unknown)),
            )
            (λ h. cc, λ h. elim h.2 [ ])
    ]
