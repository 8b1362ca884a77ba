-- ===== src/Verdict/Validity.antt =====
-- `validity_reasons` (main.py): everything that makes a run invalid. A message is a constructor of `Reason` that
-- carries what its f-string shows.
pub mod Accepted
pub mod Distributed
pub mod Passed
pub mod Pause
use net_latency_lab.Base.{
  String, Bool, true, false, not, ◌&&◌, ◌||◌, Option, none, some, List, [], ◌∷◌, ◌++◌, map, any,
  filter, if◌then◌else◌,
}
use net_latency_lab.Base.Int.{ℤ, pos, negsuc, ◌+ℤ◌, ltb_ℤ, eqb_ℤ}
use net_latency_lab.Python.Error.{Result, ok, ◌>>=◌}
use net_latency_lab.Counters.Deltas.{CounterDelta}
use net_latency_lab.Verdict.State.{Probe, State, lookup, has_error, throttled}
use net_latency_lab.Verdict.Notes.{note_if}
use net_latency_lab.Verdict.Stats.{
  Outcome, SenderStats, ReceiverStats, Totals, totals_of, get_or, succeeded,
}
use text.Mathlib.Text.{◌==◌, is_lt}
use Prim.Native.String.{compare}

pub data Reason : Type 0 where
  receives_exceed_submissions processed_exceeds_submissions : Reason
  accounting_does_not_reconcile : Reason
  not_applied : String → Reason
  sender_affinity_not_applied : Reason
  socket_buffer_below_request : String → Reason
  receive_window_missing processing_window_missing : Reason
  application_backlog socket_backlog : Reason
  negative_counter_delta : Reason
  pause_unavailable : String → Reason
  pause_frames : String → ℤ → Reason
  receiver_throttled sender_throttled : Reason
  metadata_unavailable : String → List String → Reason

unfoldable pub accounting_reasons : Totals → List Reason
accounting_reasons t =
    note_if (ltb_ℤ t.successful t.unique_received) Reason.receives_exceed_submissions
    ++ note_if (ltb_ℤ t.successful t.unique_processed) Reason.processed_exceeds_submissions
    ++ note_if (not (eqb_ℤ (t.processed_packets +ℤ t.spsc_overflow) t.valid_packets))
        Reason.accounting_does_not_reconcile

-- `outcome is not None and not outcome.get("success", False)`
abbrev pub is_refused : Option Outcome → Bool
is_refused none = false
is_refused (some outcome) = not (succeeded outcome)

-- `sender.get("cpu_affinity", {}).get("success", False)`
abbrev pub is_granted : Option Outcome → Bool
is_granted none = false
is_granted (some outcome) = succeeded outcome

unfoldable pub affinity_reasons : SenderStats → ReceiverStats → List Reason
affinity_reasons sender receiver =
    note_if (is_refused receiver.receiver_affinity) (Reason.not_applied "receiver_affinity")
    ++ note_if (is_refused receiver.receiver_scheduler) (Reason.not_applied "receiver_scheduler")
    ++ note_if (is_refused receiver.worker_affinity) (Reason.not_applied "worker_affinity")
    ++ note_if (is_refused receiver.worker_scheduler) (Reason.not_applied "worker_scheduler")
    ++ note_if (not (is_granted sender.cpu_affinity)) Reason.sender_affinity_not_applied

abbrev pub is_short : Option ℤ → Option ℤ → Bool
is_short requested observed =
    ltb_ℤ (pos 0) (get_or requested (pos 0))
    && ltb_ℤ (get_or observed (negsuc 0)) (get_or requested (pos 0))

unfoldable pub buffer_reasons : SenderStats → ReceiverStats → List Reason
buffer_reasons sender receiver =
    note_if (is_short receiver.requested_socket_buffer_bytes receiver.observed_socket_buffer_bytes)
      (Reason.socket_buffer_below_request "receive")
    ++ note_if (is_short sender.requested_socket_buffer_bytes sender.observed_socket_buffer_bytes)
        (Reason.socket_buffer_below_request "send")

-- `int(stats.get(key, 0)) == 0`
abbrev pub is_zero_or_missing : Option ℤ → Bool
is_zero_or_missing field = eqb_ℤ (get_or field (pos 0)) (pos 0)

unfoldable pub window_reasons : Totals → ReceiverStats → List Reason
window_reasons t receiver =
    note_if
      (not (eqb_ℤ t.valid_packets (pos 0))
        && (is_zero_or_missing receiver.first_receive_mono_ns
            || is_zero_or_missing receiver.last_receive_mono_ns))
      Reason.receive_window_missing
    ++ note_if
        (not (eqb_ℤ t.processed_packets (pos 0))
          && (is_zero_or_missing receiver.first_processing_mono_ns
              || is_zero_or_missing receiver.last_processing_mono_ns))
        Reason.processing_window_missing

unfoldable pub backlog_reasons : ReceiverStats → List Reason
backlog_reasons receiver =
    note_if (not (is_zero_or_missing receiver.queue_depth_at_shutdown)) Reason.application_backlog
    ++ note_if (not (is_zero_or_missing receiver.socket_pending_bytes_at_shutdown))
        Reason.socket_backlog

abbrev pub is_negative : Option ℤ → Bool
is_negative none = false
is_negative (some delta) = ltb_ℤ delta (pos 0)

unfoldable pub delta_reasons : List (String × CounterDelta) → List Reason
delta_reasons counters =
    note_if (any (λ (entry : String × CounterDelta). is_negative entry.1.delta) counters)
      Reason.negative_counter_delta

-- `counters.get(name, {}).get("delta")`
abbrev pub delta_of : Option CounterDelta → Option ℤ
delta_of none = none
delta_of (some entry) = entry.delta

abbrev pub pause_reason : String → Option ℤ → List Reason
pause_reason name none = Reason.pause_unavailable name ∷ []
pause_reason name (some delta) =
    note_if (not (eqb_ℤ delta (pos 0))) (Reason.pause_frames name delta)

unfoldable pub pause_reasons : List (String × CounterDelta) → List Reason
pause_reasons counters =
    pause_reason "nic_rx_pause" (delta_of (lookup "nic_rx_pause" counters))
    ++ pause_reason "nic_tx_pause" (delta_of (lookup "nic_tx_pause" counters))

-- `sender_before_state and sender_after_state and (…)`: None and {} are false.
abbrev pub is_present : Option State → Bool
is_present none = false
is_present (some []) = false
is_present (some (entry ∷ state)) = true

-- `state or {}`
abbrev pub state_or_empty : Option State → State
state_or_empty none = []
state_or_empty (some state) = state

unfoldable pub throttle_reasons : State → State → Option State → Option State → List Reason
throttle_reasons before after sender_before sender_after =
    note_if (throttled before || throttled after) Reason.receiver_throttled
    ++ note_if
        (is_present sender_before
          && is_present sender_after
          && (throttled (state_or_empty sender_before) || throttled (state_or_empty sender_after)))
        Reason.sender_throttled

-- `sorted` of a list of names
abbrev pub insert_name : String → List String → List String
insert_name name [] = name ∷ []
insert_name name (n ∷ names) =
    let rest = insert_name name names in
    if is_lt (compare n name) then n ∷ rest else name ∷ n ∷ names

abbrev pub sorted_names : List String → List String
sorted_names [] = []
sorted_names (name ∷ names) = insert_name name (sorted_names names)

abbrev pub failed_names : State → List String
failed_names [] = []
failed_names ((name, probe) ∷ state) =
    let rest = failed_names state in if has_error probe.error then name ∷ rest else rest

abbrev pub missing_reason : String → List String → List Reason
missing_reason label [] = []
missing_reason label (name ∷ names) = Reason.metadata_unavailable label (name ∷ names) ∷ []

unfoldable pub metadata_reasons : State → State → Option State → Option State → List Reason
metadata_reasons before after sender_before sender_after =
    missing_reason "receiver before" (sorted_names (failed_names before))
    ++ missing_reason "receiver after" (sorted_names (failed_names after))
    ++ missing_reason "sender before" (sorted_names (failed_names (state_or_empty sender_before)))
    ++ missing_reason "sender after" (sorted_names (failed_names (state_or_empty sender_after)))

-- `topology != "local_loopback"`
abbrev pub is_distributed : String → Bool
is_distributed topology = not (topology == "local_loopback")

abbrev pub when_distributed : String → List Reason → List Reason
when_distributed topology reasons = if is_distributed topology then reasons else []

unfoldable pub validity_reasons :
    SenderStats
    → ReceiverStats
    → List (String × CounterDelta)
    → State
    → State
    → String
    → Option State
    → Option State
    → Result (List Reason)
validity_reasons sender receiver counters before after topology sender_before sender_after = do
  t ← totals_of sender receiver
  ok (
      accounting_reasons t
      ++ affinity_reasons sender receiver
      ++ buffer_reasons sender receiver
      ++ window_reasons t receiver
      ++ backlog_reasons receiver
      ++ delta_reasons counters
      ++ when_distributed topology (
          pause_reasons counters
          ++ throttle_reasons before after sender_before sender_after
          ++ metadata_reasons before after sender_before sender_after))
