-- ===== src/Verdict/Stats.antt =====
-- What `validity_reasons` (main.py) reads of the statistics of a sender and a receiver, and of the counters.
-- A field that is read by `get` or by an index is an option: none where the key is missing.
use net_latency_lab.Base.{String, Bool, Option, none, some, false}
use net_latency_lab.Base.Int.{ℤ}
use net_latency_lab.Python.Error.{Error, Result, ok, err, ◌>>=◌}

-- `{"success": …}`
pub record Outcome : Type 0 where
  pub success : Option Bool

pub record SenderStats : Type 0 where
  pub successful_sends : Option ℤ
  pub cpu_affinity : Option Outcome
  pub requested_socket_buffer_bytes : Option ℤ
  pub observed_socket_buffer_bytes : Option ℤ

pub record ReceiverStats : Type 0 where
  pub unique_valid_packets : Option ℤ
  pub unique_processed_packets : Option ℤ
  pub processed_packets : Option ℤ
  pub spsc_overflow : Option ℤ
  pub valid_packets : Option ℤ
  pub receiver_affinity : Option Outcome
  pub receiver_scheduler : Option Outcome
  pub worker_affinity : Option Outcome
  pub worker_scheduler : Option Outcome
  pub requested_socket_buffer_bytes : Option ℤ
  pub observed_socket_buffer_bytes : Option ℤ
  pub first_receive_mono_ns : Option ℤ
  pub last_receive_mono_ns : Option ℤ
  pub first_processing_mono_ns : Option ℤ
  pub last_processing_mono_ns : Option ℤ
  pub queue_depth_at_shutdown : Option ℤ
  pub socket_pending_bytes_at_shutdown : Option ℤ

-- `stats[key]`
abbrev pub required : String → Option ℤ → Result ℤ
required key none = err (Error.key_error key)
required key (some value) = ok value

-- The numbers that are read by an index, so that a missing one raises KeyError.
pub record Totals : Type 0 where
  pub successful : ℤ
  pub unique_received : ℤ
  pub unique_processed : ℤ
  pub processed_packets : ℤ
  pub spsc_overflow : ℤ
  pub valid_packets : ℤ

unfoldable pub totals_of : SenderStats → ReceiverStats → Result Totals
totals_of sender receiver = do
  successful ← required "successful_sends" sender.successful_sends
  unique_received ← required "unique_valid_packets" receiver.unique_valid_packets
  unique_processed ← required "unique_processed_packets" receiver.unique_processed_packets
  processed ← required "processed_packets" receiver.processed_packets
  overflow ← required "spsc_overflow" receiver.spsc_overflow
  valid ← required "valid_packets" receiver.valid_packets
  ok (record {
    successful = successful;
    unique_received = unique_received;
    unique_processed = unique_processed;
    processed_packets = processed;
    spsc_overflow = overflow;
    valid_packets = valid;
  })

-- `stats.get(key, default)`
abbrev pub get_or {ℓ} : {A : Type ℓ} → Option A → A → A
get_or none default = default
get_or (some a) default = a

-- `outcome.get("success", False)`
abbrev pub succeeded : Outcome → Bool
succeeded outcome = get_or outcome.success false
