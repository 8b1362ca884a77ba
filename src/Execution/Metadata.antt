-- ===== src/Execution/Metadata.antt =====
-- The metadata that `execute_run` (main.py) computes from what a run measured.
pub mod Accounted
use net_latency_lab.Base.{ℕ, String, Bool, not, ◌||◌, Option, none, some, List, if◌then◌else◌}
use net_latency_lab.Base.Int.{ℤ, pos, ◌-ℤ◌, eqb_ℤ}
use net_latency_lab.Python.Error.{Error, Result, ok, err, ◌>>=◌}
use net_latency_lab.Process.Node.{shutdown_target_pid}
use net_latency_lab.Counters.Deltas.{CounterDelta, counter_deltas}
use net_latency_lab.Pacing.Report.{PacingReport, is_empty}
use net_latency_lab.Verdict.Stats.{required}
use net_latency_lab.Verdict.Validity.{Reason, validity_reasons}
use net_latency_lab.Verdict.Qualification.{required_float}
use net_latency_lab.Execution.Commands.{get_or}
use net_latency_lab.Execution.Report.{SenderReport, ReceiverReport}
use net_latency_lab.Execution.Plan.{Plan, has_pacing, run_id_of}
use net_latency_lab.Execution.Measure.{
  Numbers, Snapshot, Measured, silence_seconds, profile_wrapper_pid,
}
use text.Mathlib.Text.{◌==◌}

-- `metadata["run"]`
pub record RunSection (F : Type 0) : Type 0 where
  pub campaign : String
  pub contributes_to_claim_measurements : Bool
  pub receiver_variant : String
  pub requested_rate_pps : ℕ
  pub duration_seconds : F
  pub payload_size : ℤ
  pub mode : String
  pub burst_size : ℕ
  pub send_batch_max : ℤ
  pub batch_window_us : ℤ
  pub sender_threads : ℤ
  pub sender_cpus : Option (List ℤ)
  pub pacing_trace_enabled : Bool
  pub batch_size : ℕ
  pub work_ns : ℤ
  pub sample_every : ℤ
  pub post_sender_drain_seconds : F

pub record ProcessSection (F : Type 0) : Type 0 where
  pub receiver_pid : ℕ
  pub sender_pid : ℕ
  pub receiver_command : List String
  pub sender_command : List String
  pub control_plane_silent_seconds : F
  pub profile_wrapper_pid : Option ℕ

pub record PacketAccounting (F : Type 0) : Type 0 where
  pub requested_rate_pps : ℕ
  pub offered_pps : F
  pub received_pps : F
  pub processed_pps : F
  pub ingress_loss : ℤ
  pub application_loss : ℤ
  pub ingress_loss_pct : F
  pub application_loss_pct : F

-- `{"passed": …, "reasons": …}`
pub record Qualification : Type 0 where
  pub passed : Bool
  pub reasons : List String

pub data Profile : Type 0 where
  stat : String → List String → Profile
  record_profile : String → String → Profile

-- `configured_tuning_state` and `environment`, which are passed on as they are, are left out.
pub record Metadata (F : Type 0) : Type 0 where
  pub session_id : String
  pub run_id : String
  pub repetition_id : ℕ
  pub topology : String
  pub run : RunSection F
  pub processes : ProcessSection F
  pub sender_stats : SenderReport F
  pub receiver_stats : ReceiverReport
  pub packet_accounting : PacketAccounting F
  pub counters : List (String × CounterDelta)
  pub sender_counters : List (String × CounterDelta)
  pub before : Snapshot
  pub after : Snapshot
  pub valid : Bool
  pub reasons : List Reason
  pub pacing : Option PacingReport
  pub qualification : Option Qualification
  pub profile : Option Profile

module _ {F : Type 0} (numbers : Numbers F) (plan : Plan F) where
  -- `packets / elapsed if elapsed > 0 else 0.0`
  abbrev pub per_second : ℤ → F → F
  per_second packets elapsed =
      if numbers.is_positive elapsed then numbers.per packets elapsed else numbers.zero

  -- `100.0 * loss / successful if successful else 0.0`
  abbrev pub loss_pct : ℤ → ℤ → F
  loss_pct loss successful =
      if eqb_ℤ successful (pos 0) then numbers.zero else numbers.percent loss successful

  unfoldable pub accounting_of : ℤ → ℤ → ℤ → F → PacketAccounting F
  accounting_of successful unique_received unique_processed elapsed =
      let ingress_loss = successful -ℤ unique_received in
      let application_loss = successful -ℤ unique_processed in
      record {
        requested_rate_pps = plan.item.rate;
        offered_pps = per_second successful elapsed;
        received_pps = per_second unique_received elapsed;
        processed_pps = per_second unique_processed elapsed;
        ingress_loss = ingress_loss;
        application_loss = application_loss;
        ingress_loss_pct = loss_pct ingress_loss successful;
        application_loss_pct = loss_pct application_loss successful;
      }

  -- `item.campaign not in {"pilot", "profile"}`
  abbrev pub contributes_by_campaign : String → Bool
  contributes_by_campaign campaign = not (campaign == "pilot" || campaign == "profile")

  abbrev pub run_section : String → RunSection F
  run_section variant = record {
    campaign = plan.item.campaign;
    contributes_to_claim_measurements =
        get_or plan.benchmark.contributes_to_claim_measurements
          (contributes_by_campaign plan.item.campaign);
    receiver_variant = variant;
    requested_rate_pps = plan.item.rate;
    duration_seconds = plan.benchmark.sender_config.duration_seconds;
    payload_size = plan.benchmark.sender_config.payload_size;
    mode = plan.benchmark.sender_config.mode;
    burst_size = plan.item.burst;
    send_batch_max = get_or plan.benchmark.sender_config.send_batch_max (pos 1);
    batch_window_us = get_or plan.benchmark.sender_config.batch_window_us (pos 10);
    sender_threads = get_or plan.benchmark.sender_config.threads (pos 1);
    sender_cpus = plan.benchmark.sender_config.cpus;
    pacing_trace_enabled = has_pacing plan.benchmark;
    batch_size = plan.item.batch;
    work_ns = get_or plan.benchmark.receiver_config.work_ns (pos 0);
    sample_every = get_or plan.benchmark.receiver_config.sample_every (pos 1);
    post_sender_drain_seconds = get_or plan.config.runtime.post_sender_drain_seconds numbers.one;
  }

  abbrev pub process_section : Measured → ProcessSection F
  process_section measured = record {
    receiver_pid = shutdown_target_pid measured.receiver_handle;
    sender_pid = measured.sender_handle.pid;
    receiver_command = plan.rx_command;
    sender_command = plan.tx_command;
    control_plane_silent_seconds = silence_seconds numbers plan;
    profile_wrapper_pid = profile_wrapper_pid measured.receiver_handle;
  }

  -- `receiver_stats["variant"]`
  abbrev pub required_text : String → Option String → Result String
  required_text key none = err (Error.key_error key)
  required_text key (some text) = ok text

  -- The metadata before the pacing, the qualification and the profile are added.
  unfoldable pub metadata_of : Measured → SenderReport F → ReceiverReport → Result (Metadata F)
  unfolding accounting_of
  metadata_of measured sender_stats receiver_stats = do
    let before = measured.before
    let after = measured.after
    let counters = counter_deltas before.receiver_counters after.receiver_counters
    let sender_counters = counter_deltas before.sender_counters after.sender_counters
    successful ← required "successful_sends" sender_stats.stats.successful_sends
    unique_received ← required "unique_valid_packets" receiver_stats.stats.unique_valid_packets
    unique_processed ←
        required "unique_processed_packets" receiver_stats.stats.unique_processed_packets
    elapsed ← required_float "elapsed_seconds" sender_stats.elapsed_seconds
    reasons ←
        validity_reasons sender_stats.stats receiver_stats.stats counters before.receiver_state
          after.receiver_state plan.config.topology (some before.sender_state)
          (some after.sender_state)
    variant ← required_text "variant" receiver_stats.variant
    ok (record {
      session_id = plan.session_id;
      run_id = run_id_of plan.item;
      repetition_id = plan.item.repetition;
      topology = plan.config.topology;
      run = run_section variant;
      processes = process_section measured;
      sender_stats = sender_stats;
      receiver_stats = receiver_stats;
      packet_accounting = accounting_of successful unique_received unique_processed elapsed;
      counters = counters;
      sender_counters = sender_counters;
      before = before;
      after = after;
      valid = is_empty reasons;
      reasons = reasons;
      pacing = none;
      qualification = none;
      profile = none;
    })
