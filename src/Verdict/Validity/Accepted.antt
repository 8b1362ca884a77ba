-- ===== src/Verdict/Validity/Accepted.antt =====
-- What a run must satisfy for `validity_reasons` (main.py) to find nothing against it, stated without the
-- function.
use net_latency_lab.Base.{
  String, true, false, not, ◌&&◌, ◌||◌, Option, none, some, List, [], ◌∷◌, any, arith, ◌≡◌, refl,
  ◌⊎◌, ◌↔◌, ◌≢◌, All,
}
use net_latency_lab.Base.Int.{ℤ, pos, negsuc, ◌+ℤ◌, eqb_ℤ, ◌≤ℤ◌, eq_of_parts, eqb_ℤ_iff}
use net_latency_lab.Counters.Deltas.{CounterDelta}
use net_latency_lab.Verdict.Stats.{Outcome, SenderStats, ReceiverStats, Totals, get_or, succeeded}
use net_latency_lab.Verdict.Validity.{
  accounting_reasons, affinity_reasons, buffer_reasons, window_reasons, backlog_reasons,
  delta_reasons, is_refused, is_granted, is_short, is_zero_or_missing, is_negative,
}

-- The numbers of packets reconcile.
abbrev pub IsReconciled : Totals → Type 0
IsReconciled t =
    (t.unique_received ≤ℤ t.successful)
    × (t.unique_processed ≤ℤ t.successful)
    × (t.processed_packets +ℤ t.spsc_overflow ≡ t.valid_packets)

pub accounting_reasons_iff : (t : Totals) → (accounting_reasons t ≡ []) ↔ IsReconciled t
unfolding accounting_reasons
accounting_reasons_iff t =
    let same = eq_of_parts (t.processed_packets +ℤ t.spsc_overflow) t.valid_packets in
    (λ h. ground (arith, same), λ h. ground arith)

-- An outcome that was reported was a success.
abbrev pub IsApplied : Option Outcome → Type 0
IsApplied none = Unit
IsApplied (some outcome) = succeeded outcome ≡ true

is_refused_iff : (o : Option Outcome) → (is_refused o ≡ false) ↔ IsApplied o
is_refused_iff none = (λ h. tt, λ h. refl)
is_refused_iff (some outcome) = (λ h. ground arith, λ h. ground arith)

abbrev pub IsPlaced : SenderStats → ReceiverStats → Type 0
IsPlaced sender receiver =
    IsApplied receiver.receiver_affinity
    × IsApplied receiver.receiver_scheduler
    × IsApplied receiver.worker_affinity
    × IsApplied receiver.worker_scheduler
    × (is_granted sender.cpu_affinity ≡ true)

pub affinity_reasons_iff :
    (sender : SenderStats) (receiver : ReceiverStats)
    → (affinity_reasons sender receiver ≡ []) ↔ IsPlaced sender receiver
unfolding affinity_reasons
affinity_reasons_iff sender receiver =
    let a = is_refused_iff receiver.receiver_affinity in
    let b = is_refused_iff receiver.receiver_scheduler in
    let c = is_refused_iff receiver.worker_affinity in
    let d = is_refused_iff receiver.worker_scheduler in
    (λ h. ground (arith, a, b, c, d), λ h. ground (arith, a, b, c, d))

-- A buffer that was requested is as large as requested.
abbrev pub IsEnough : Option ℤ → Option ℤ → Type 0
IsEnough requested observed =
    (get_or requested (pos 0) ≤ℤ pos 0) ⊎ (get_or requested (pos 0) ≤ℤ get_or observed (negsuc 0))

is_short_iff :
    (requested observed : Option ℤ)
    → (is_short requested observed ≡ false) ↔ IsEnough requested observed
is_short_iff requested observed = (λ h. ground arith, λ h. ground arith)

abbrev pub HasBuffers : SenderStats → ReceiverStats → Type 0
HasBuffers sender receiver =
    IsEnough receiver.requested_socket_buffer_bytes receiver.observed_socket_buffer_bytes
    × IsEnough sender.requested_socket_buffer_bytes sender.observed_socket_buffer_bytes

pub buffer_reasons_iff :
    (sender : SenderStats) (receiver : ReceiverStats)
    → (buffer_reasons sender receiver ≡ []) ↔ HasBuffers sender receiver
unfolding buffer_reasons
buffer_reasons_iff sender receiver =
    let a =
      is_short_iff receiver.requested_socket_buffer_bytes receiver.observed_socket_buffer_bytes in
    let b = is_short_iff sender.requested_socket_buffer_bytes sender.observed_socket_buffer_bytes in
    (λ h. ground (arith, a, b), λ h. ground (arith, a, b))

-- A stage that handled packets has both ends of its window.
abbrev pub HasWindow : ℤ → Option ℤ → Option ℤ → Type 0
HasWindow packets first last =
    (packets ≡ pos 0) ⊎ ((get_or first (pos 0) ≢ pos 0) × (get_or last (pos 0) ≢ pos 0))

eqb_ℤ-not_iff : (a b : ℤ) → (eqb_ℤ a b ≡ false) ↔ (a ≢ b)
eqb_ℤ-not_iff a b =
    let same = eqb_ℤ_iff a b in (λ h. ground (arith, same), λ h. ground (arith, same))

window_iff :
    (packets : ℤ) (first last : Option ℤ)
    → ((not (eqb_ℤ packets (pos 0)) && (is_zero_or_missing first || is_zero_or_missing last))
        ≡ false)
      ↔ HasWindow packets first last
window_iff packets first last =
    let a = eqb_ℤ_iff packets (pos 0) in
    let b = eqb_ℤ-not_iff (get_or first (pos 0)) (pos 0) in
    let c = eqb_ℤ-not_iff (get_or last (pos 0)) (pos 0) in
    (λ h. ground (arith, a, b, c), λ h. ground (arith, a, b, c))

abbrev pub HasWindows : Totals → ReceiverStats → Type 0
HasWindows t receiver =
    HasWindow t.valid_packets receiver.first_receive_mono_ns receiver.last_receive_mono_ns
    × HasWindow t.processed_packets receiver.first_processing_mono_ns
        receiver.last_processing_mono_ns

pub window_reasons_iff :
    (t : Totals) (receiver : ReceiverStats)
    → (window_reasons t receiver ≡ []) ↔ HasWindows t receiver
unfolding window_reasons
window_reasons_iff t receiver =
    let a =
      window_iff t.valid_packets receiver.first_receive_mono_ns receiver.last_receive_mono_ns in
    let b =
      window_iff t.processed_packets receiver.first_processing_mono_ns
        receiver.last_processing_mono_ns in
    (λ h. ground (arith, a, b), λ h. ground (arith, a, b))

-- The drain left nothing behind.
abbrev pub IsDrained : ReceiverStats → Type 0
IsDrained receiver =
    (get_or receiver.queue_depth_at_shutdown (pos 0) ≡ pos 0)
    × (get_or receiver.socket_pending_bytes_at_shutdown (pos 0) ≡ pos 0)

pub backlog_reasons_iff :
    (receiver : ReceiverStats) → (backlog_reasons receiver ≡ []) ↔ IsDrained receiver
unfolding backlog_reasons
backlog_reasons_iff receiver =
    let a = eqb_ℤ_iff (get_or receiver.queue_depth_at_shutdown (pos 0)) (pos 0) in
    let b = eqb_ℤ_iff (get_or receiver.socket_pending_bytes_at_shutdown (pos 0)) (pos 0) in
    (λ h. ground (arith, a, b), λ h. ground (arith, a, b))

-- No counter went backwards.
abbrev pub IsMonotone : List (String × CounterDelta) → Type 0
IsMonotone counters =
    All (λ (entry : String × CounterDelta). is_negative entry.1.delta ≡ false) counters

any-IsMonotone :
    (counters : List (String × CounterDelta))
    → (any (λ (entry : String × CounterDelta). is_negative entry.1.delta) counters ≡ false)
      ↔ IsMonotone counters
any-IsMonotone [] = (λ h. tt, λ h. refl)
any-IsMonotone (entry ∷ counters) =
    let ih = any-IsMonotone counters in (λ h. ground (arith, ih), λ h. ground (arith, ih))

pub delta_reasons_iff :
    (counters : List (String × CounterDelta)) → (delta_reasons counters ≡ []) ↔ IsMonotone counters
unfolding delta_reasons
delta_reasons_iff counters =
    let a = any-IsMonotone counters in (λ h. ground (arith, a), λ h. ground (arith, a))
