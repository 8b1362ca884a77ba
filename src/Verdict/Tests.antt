-- ===== src/Verdict/Tests.antt =====
-- Verdicts (main.py) on a concrete run between two machines.
use net_latency_lab.Verdict.Qualification.{
  Floats, RunRecord, readings_of, link_is_gigabit_full, qualification_reasons,
}
use net_latency_lab.Verdict.Qualification.Passed.{IsQualifying, qualification_reasons_iff}
use net_latency_lab.Base.{ℕ, String, ◌≡◌, refl, ◌↔◌, true, Option, none, some, List, [], ◌∷◌}
use net_latency_lab.Base.Int.{eqb_ℤ, ltb_ℤ, ◌*ℤ◌, pos, ◌+ℤ◌, ◌-ℤ◌}
use net_latency_lab.Python.Error.{ok}
use net_latency_lab.Counters.Deltas.{Sample, names_of, delta_entry, counter_deltas}
use net_latency_lab.Counters.Deltas.Reported.{IsMeasured}
use net_latency_lab.Verdict.Throttle.{search_flags, hex_after_zero, hex_group, is_nonzero_run}
use net_latency_lab.Verdict.State.{State, lookup, throttled}
use net_latency_lab.Verdict.Stats.{Outcome, SenderStats, ReceiverStats, Totals, totals_of}
use net_latency_lab.Verdict.Validity.{
  accounting_reasons, affinity_reasons, buffer_reasons, window_reasons, backlog_reasons,
  delta_reasons, pause_reasons, throttle_reasons, metadata_reasons, validity_reasons,
}
use net_latency_lab.Verdict.Validity.Passed.{IsPassed, validity_reasons_iff}
use net_latency_lab.Verdict.Validity.Pause.{validity_reasons-IsMeasured}

abbrev granted : Option Outcome
granted = some (record { success = some true })

abbrev sender : SenderStats
sender = record {
  successful_sends = some (pos 1000);
  cpu_affinity = granted;
  requested_socket_buffer_bytes = some (pos 4096);
  observed_socket_buffer_bytes = some (pos 8192);
}

abbrev receiver : ReceiverStats
receiver = record {
  unique_valid_packets = some (pos 999);
  unique_processed_packets = some (pos 998);
  processed_packets = some (pos 998);
  spsc_overflow = some (pos 1);
  valid_packets = some (pos 999);
  receiver_affinity = granted;
  receiver_scheduler = none;
  worker_affinity = granted;
  worker_scheduler = none;
  requested_socket_buffer_bytes = none;
  observed_socket_buffer_bytes = none;
  first_receive_mono_ns = some (pos 10);
  last_receive_mono_ns = some (pos 20);
  first_processing_mono_ns = some (pos 11);
  last_processing_mono_ns = some (pos 21);
  queue_depth_at_shutdown = some (pos 0);
  socket_pending_bytes_at_shutdown = none;
}

abbrev totals : Totals
totals = record {
  successful = pos 1000;
  unique_received = pos 999;
  unique_processed = pos 998;
  processed_packets = pos 998;
  spsc_overflow = pos 1;
  valid_packets = pos 999;
}

abbrev idle : State
idle = ("throttled", record { value = some "throttled=0x0"; error = none }) ∷ []

abbrev hot : State
hot = ("throttled", record { value = some "throttled=0x50005"; error = none }) ∷ []

abbrev pauses : List (String × Sample)
pauses =
    ("nic_rx_pause", record { value = some (pos 7); error = none })
    ∷ ("nic_tx_pause", record { value = some (pos 0); error = none })
    ∷ []

hot-throttled : throttled hot ≡ true
unfolding throttled search_flags hex_after_zero hex_group is_nonzero_run
hot-throttled = refl

validity_reasons_iff_example :
    (validity_reasons sender receiver
        (counter_deltas pauses pauses)
        idle
        idle
        "distributed"
        (some idle)
        (some idle)
      ≡ ok [])
    ↔ IsPassed sender receiver
        (counter_deltas pauses pauses)
        idle
        idle
        "distributed"
        (some idle)
        (some idle)
        totals
unfolding totals_of
validity_reasons_iff_example =
    validity_reasons_iff sender receiver (counter_deltas pauses pauses) idle idle "distributed"
      (some idle) (some idle) totals refl

validity_reasons-IsMeasured_example :
    IsMeasured (lookup "nic_rx_pause" pauses) (lookup "nic_rx_pause" pauses) (pos 0)
    × IsMeasured (lookup "nic_tx_pause" pauses) (lookup "nic_tx_pause" pauses) (pos 0)
unfolding validity_reasons totals_of accounting_reasons affinity_reasons buffer_reasons
    window_reasons backlog_reasons delta_reasons pause_reasons throttle_reasons metadata_reasons
    counter_deltas names_of delta_entry ◌+ℤ◌ ◌-ℤ◌ throttled search_flags hex_after_zero hex_group
    is_nonzero_run
validity_reasons-IsMeasured_example =
    validity_reasons-IsMeasured sender receiver pauses pauses idle idle "distributed" (some idle)
      (some idle) totals refl refl refl

-- Whole packets per second stand for floats.
abbrev whole : Floats ℕ
whole = record {
  is_in_band = λ rate achieved. eqb_ℤ rate (pos achieved);
  is_frequent = λ reordered packets. ltb_ℤ packets (reordered *ℤ pos 10_000);
}

abbrev linked : State
linked =
    ("link", record { value = some "Speed: 1000Mb/s\n\tDuplex: Full"; error = none })
    ∷ ("throttled", record { value = some "throttled=0x0"; error = none })
    ∷ []

abbrev steady_run : RunRecord ℕ
steady_run = record {
  requested_rate_pps = some (pos 100);
  payload_size = some (pos 64);
  achieved_successful_send_pps = some 100;
  failed_sends = some (pos 0);
  attempted_sends = some (pos 500);
  successful_sends = some (pos 500);
  sender_fields = ("successful_bytes", pos 32_000) ∷ [];
  unique_valid_packets = some (pos 500);
  receiver_fields = ("unique_processed_packets", pos 500) ∷ [];
  counters = counter_deltas pauses pauses;
  sender_counters = [];
  receiver_before = linked;
  receiver_after = linked;
  sender_before = linked;
  sender_after = linked;
  thread_outcomes = some true ∷ [];
  pacing = some [];
  validity = [];
}

linked-link_is_gigabit_full : link_is_gigabit_full linked ≡ true
unfolding link_is_gigabit_full
linked-link_is_gigabit_full = refl

qualification_reasons_iff_example :
    (qualification_reasons whole steady_run ≡ ok [])
    ↔ IsQualifying whole steady_run (record {
      rate = pos 100;
      achieved = 100;
      failed = pos 0;
      attempted = pos 500;
      successful = pos 500;
      payload = pos 64;
      unique_valid = pos 500;
    })
unfolding readings_of
qualification_reasons_iff_example =
    qualification_reasons_iff whole steady_run
      (record {
        rate = pos 100;
        achieved = 100;
        failed = pos 0;
        attempted = pos 500;
        successful = pos 500;
        payload = pos 64;
        unique_valid = pos 500;
      })
      refl
