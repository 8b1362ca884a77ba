-- ===== src/Verdict/Qualification/Groups.antt =====
-- The reasons of `qualification_reasons` (main.py) that look at one list or one state: when there is none.
use net_latency_lab.Base.{
  String, Bool, true, false, not, ◌||◌, Option, none, some, List, [], ◌∷◌, ◌≡◌, refl, ap, ◌↔◌, All,
  arith,
}
use net_latency_lab.Base.Int.{differs_iff, ℤ, pos}
use net_latency_lab.Counters.Deltas.{CounterDelta}
use net_latency_lab.Verdict.Notes.{append-both_iff, note_if_iff}
use net_latency_lab.Verdict.State.{State, has_error, throttling_is_clear}
use net_latency_lab.Verdict.Qualification.{
  count_in, nonzero_reasons, delta_reason, counter_reasons, link_is_gigabit_full, role_reasons,
  pacing_reasons, first_occurrences,
}

pub not_iff : (b : Bool) → (not b ≡ false) ↔ (b ≡ true)
not_iff true = (λ h. refl, λ h. refl)
not_iff false = (λ h. cc, λ h. cc)

-- A field that must be zero is zero or missing.
abbrev pub AreZero : List String → List (String × ℤ) → Type 0
AreZero fields stats = All (λ (field : String). count_in stats field ≡ pos 0) fields

pub nonzero_reasons_iff :
    (fields : List String) (stats : List (String × ℤ))
    → (nonzero_reasons fields stats ≡ []) ↔ AreZero fields stats
unfolding nonzero_reasons
nonzero_reasons_iff [] stats = (λ h. tt, λ h. refl)
nonzero_reasons_iff (field ∷ fields) stats =
    append-both_iff (note_if_iff _ (differs_iff (count_in stats field) (pos 0)))
      (nonzero_reasons_iff fields stats)

-- Every counter was read at both ends and did not change.
abbrev pub AreStill : List (String × CounterDelta) → Type 0
AreStill counters =
    All
      (λ (entry : String × CounterDelta).
        (has_error entry.1.error ≡ false) × (entry.1.delta ≡ some (pos 0)))
      counters

delta_reason_iff :
    (label : String) (failed : Bool) (delta : Option ℤ)
    → (delta_reason label failed delta ≡ []) ↔ ((failed ≡ false) × (delta ≡ some (pos 0)))
delta_reason_iff label failed none = (λ h. cc, λ h. cc)
delta_reason_iff label true (some delta) = (λ h. cc, λ h. cc)
delta_reason_iff label false (some delta) =
    let spared = note_if_iff _ (differs_iff delta (pos 0)) in
    (λ h. (refl, ap some (spared.0 h)), λ h. spared.1 (ground (arith, h.1)))

pub counter_reasons_iff :
    (side : String) (counters : List (String × CounterDelta))
    → (counter_reasons side counters ≡ []) ↔ AreStill counters
unfolding counter_reasons
counter_reasons_iff side [] = (λ h. tt, λ h. refl)
counter_reasons_iff side (entry ∷ counters) =
    append-both_iff (delta_reason_iff _ (has_error entry.1.error) entry.1.delta)
      (counter_reasons_iff side counters)

-- The machine had its full link and no throttling, before and after the run.
abbrev pub IsSteady : State → State → Type 0
IsSteady before after =
    ((link_is_gigabit_full before ≡ true) × (link_is_gigabit_full after ≡ true))
    × ((throttling_is_clear before ≡ true) × (throttling_is_clear after ≡ true))

neither_iff : (a b : Bool) → ((not a || not b) ≡ false) ↔ ((a ≡ true) × (b ≡ true))
neither_iff true true = (λ h. (refl, refl), λ h. refl)
neither_iff true false = (λ h. cc, λ h. cc)
neither_iff false b = (λ h. cc, λ h. cc)

pub role_reasons_iff :
    (role : String) (before after : State)
    → (role_reasons role before after ≡ []) ↔ IsSteady before after
unfolding role_reasons
role_reasons_iff role before after =
    append-both_iff
      (note_if_iff _ (neither_iff (link_is_gigabit_full before) (link_is_gigabit_full after)))
      (note_if_iff _ (neither_iff (throttling_is_clear before) (throttling_is_clear after)))

pub pacing_reasons_iff :
    (pacing : Option (List String)) → (pacing_reasons pacing ≡ []) ↔ (pacing ≡ some [])
pacing_reasons_iff none = (λ h. cc, λ h. cc)
pacing_reasons_iff (some reasons) = (λ h. ap some h, λ h. cc)

pub first_occurrences_iff :
    (reasons : List String) → (first_occurrences [] reasons ≡ []) ↔ (reasons ≡ [])
unfolding first_occurrences
first_occurrences_iff [] = (λ h. refl, λ h. refl)
first_occurrences_iff (reason ∷ reasons) = (λ h. cc, λ h. cc)
