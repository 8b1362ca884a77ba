-- ===== src/Verdict/Validity/Distributed.antt =====
-- What `validity_reasons` (main.py) asks of the machines of a run that is not on one loopback interface.
use net_latency_lab.Base.{
  String, false, Option, none, some, List, [], ◌∷◌, arith, ◌≡◌, refl, ◌⊎◌, ◌↔◌, All,
}
use net_latency_lab.Base.Int.{ℤ, pos, eqb_ℤ_iff}
use net_latency_lab.Counters.Deltas.{CounterDelta}
use net_latency_lab.Verdict.Notes.{append-both_iff}
use net_latency_lab.Verdict.State.{Probe, State, lookup, has_error, throttled}
use net_latency_lab.Verdict.Validity.{
  Reason, pause_reasons, throttle_reasons, metadata_reasons, delta_of, pause_reason, is_present,
  state_or_empty, insert_name, sorted_names, failed_names, missing_reason,
}

-- The counter was read at both ends, and its delta is 0.
abbrev pub IsPauseFree : String → List (String × CounterDelta) → Type 0
IsPauseFree name counters = delta_of (lookup name counters) ≡ some (pos 0)

pause_reason_iff :
    (name : String) (delta : Option ℤ) → (pause_reason name delta ≡ []) ↔ (delta ≡ some (pos 0))
pause_reason_iff name none = (λ h. cc, λ h. cc)
pause_reason_iff name (some delta) =
    let a = eqb_ℤ_iff delta (pos 0) in (λ h. ground (arith, a), λ h. ground (arith, a))

pub pause_reasons_iff :
    (counters : List (String × CounterDelta))
    → (pause_reasons counters ≡ [])
      ↔ (IsPauseFree "nic_rx_pause" counters × IsPauseFree "nic_tx_pause" counters)
unfolding pause_reasons
pause_reasons_iff counters =
    append-both_iff (pause_reason_iff "nic_rx_pause" (delta_of (lookup "nic_rx_pause" counters)))
      (pause_reason_iff "nic_tx_pause" (delta_of (lookup "nic_tx_pause" counters)))

-- The receiver was throttled at neither end, nor the sender, unless one of its two states is empty or missing.
abbrev pub IsUnthrottled : State → State → Option State → Option State → Type 0
IsUnthrottled before after sender_before sender_after =
    (throttled before ≡ false)
    × (throttled after ≡ false)
    × ((is_present sender_before ≡ false)
        ⊎ (is_present sender_after ≡ false)
        ⊎ ((throttled (state_or_empty sender_before) ≡ false)
            × (throttled (state_or_empty sender_after) ≡ false)))

pub throttle_reasons_iff :
    (before after : State) (sender_before sender_after : Option State)
    → (throttle_reasons before after sender_before sender_after ≡ [])
      ↔ IsUnthrottled before after sender_before sender_after
unfolding throttle_reasons
throttle_reasons_iff before after sender_before sender_after =
    (λ h. ground arith, λ h. ground arith)

-- No entry of the state holds an error whose text is not empty.
abbrev pub IsComplete : State → Type 0
IsComplete state = All (λ (entry : String × Probe). has_error entry.1.error ≡ false) state

failed_names_iff : (state : State) → (failed_names state ≡ []) ↔ IsComplete state
failed_names_iff [] = (λ h. tt, λ h. refl)
failed_names_iff (entry ∷ state) =
    let ih = failed_names_iff state in (λ h. ground (arith, ih), λ h. ground (arith, ih))

insert_name-empty : (name : String) (names : List String) → (insert_name name names ≡ []) → ⊥
insert_name-empty name [] h = cc
insert_name-empty name (n ∷ names) h = ground arith

sorted_names-empty_iff : (names : List String) → (sorted_names names ≡ []) ↔ (names ≡ [])
sorted_names-empty_iff [] = (λ h. refl, λ h. refl)
sorted_names-empty_iff (name ∷ names) =
    let filled = insert_name-empty name (sorted_names names) in
    (λ h. ground (arith, filled), λ h. cc)

missing_reason-empty_iff :
    (label : String) (names : List String) → (missing_reason label names ≡ []) ↔ (names ≡ [])
missing_reason-empty_iff label [] = (λ h. refl, λ h. refl)
missing_reason-empty_iff label (name ∷ names) = (λ h. cc, λ h. cc)

abbrev pub reason_for : String → State → List Reason
reason_for label state = missing_reason label (sorted_names (failed_names state))

reason_for_iff : (label : String) (state : State) → (reason_for label state ≡ []) ↔ IsComplete state
reason_for_iff label state =
    let a = missing_reason-empty_iff label (sorted_names (failed_names state)) in
    let b = sorted_names-empty_iff (failed_names state) in
    let c = failed_names_iff state in (λ h. c.0 (b.0 (a.0 h)), λ h. a.1 (b.1 (c.1 h)))

abbrev pub AreComplete : State → State → Option State → Option State → Type 0
AreComplete before after sender_before sender_after =
    IsComplete before
    × IsComplete after
    × IsComplete (state_or_empty sender_before)
    × IsComplete (state_or_empty sender_after)

pub metadata_reasons_iff :
    (before after : State) (sender_before sender_after : Option State)
    → (metadata_reasons before after sender_before sender_after ≡ [])
      ↔ AreComplete before after sender_before sender_after
unfolding metadata_reasons
metadata_reasons_iff before after sender_before sender_after =
    let all =
      append-both_iff
        (append-both_iff
          (append-both_iff (reason_for_iff "receiver before" before)
            (reason_for_iff "receiver after" after))
          (reason_for_iff "sender before" (state_or_empty sender_before)))
        (reason_for_iff "sender after" (state_or_empty sender_after)) in
    (λ h. let (((a, b), c), d) = all.0 h in (a, b, c, d), λ h. all.1 (((h.0, h.1), h.2), h.3))
