-- ===== src/Execution/Collect.antt =====
-- The rest of the `try` of `execute_run` (main.py): the artifacts are fetched, the metadata are
-- completed and written.
use net_latency_lab.Base.{
  ℕ, String, Bool, true, false, Option, none, some, List, [], ◌∷◌, ◌++◌, map, if◌then◌else◌,
}
use net_latency_lab.Base.Int.{ℤ, pos}
use net_latency_lab.Python.Error.{Error, Result, ok, err, raise_if}
use net_latency_lab.Python.Error as R
use net_latency_lab.Python.Spaces.{is_white}
use net_latency_lab.Python.Stateful.{lift, give, ◌>>=◌, ◌>>◌}
use net_latency_lab.Pacing.Report.{Percentiles, Schedule, PacingReport, is_empty, analyze_rows}
use net_latency_lab.Verdict.Message.{message}
use net_latency_lab.Verdict.Qualification.{Floats, RunRecord, qualification_reasons}
use net_latency_lab.Verdict.Stats.{required}
use net_latency_lab.Execution.Report.{SenderReport, ReceiverReport}
use net_latency_lab.Execution.Lab.{
  receiver, sender, run, fetch_file, require_nonempty_file, read_json, read_rows, write_text,
  write_metadata, Lab, Locals, Run, ask, ask_then,
}
use net_latency_lab.Execution.Plan.{
  Plan, base_of, has_pacing, is_profile, run_id_of, remote_pacing_trace, remote_profile_of,
}
use net_latency_lab.Execution.Measure.{Numbers, Measured}
use net_latency_lab.Execution.Metadata.{Metadata, Profile, metadata_of}
use Prim.Native.String.{◌++◌ as str_append}
use text.Mathlib.Text.{◌==◌ as same}

-- The value under a key that is read elsewhere too, among the integers of a dict.
abbrev pub listed : String → Option ℤ → List (String × ℤ)
listed name none = []
listed name (some value) = (name, value) ∷ []

-- `sender["start_mono_ns"]` and `sender["scheduled_end_mono_ns"]`
abbrev pub required_time : String → Option ℕ → Result ℕ
required_time key none = err (Error.key_error key)
required_time key (some time) = ok time

abbrev pub reasons_of : Option PacingReport → Option (List String)
reasons_of none = none
reasons_of (some report) = some report.reasons

module _ {F : Type 0} where
  -- What the pacing analysis reads of the sender's statistics, in its order.
  unfoldable pub schedule_of : SenderReport F → Result Schedule
  schedule_of sender_stats =
      R.◌>>=◌ (required_time "start_mono_ns" sender_stats.start_mono_ns) λ start.
        R.◌>>=◌ (required_time "scheduled_end_mono_ns" sender_stats.scheduled_end_mono_ns) λ end.
          R.◌>>=◌ (required "successful_sends" sender_stats.stats.successful_sends) λ successful.
            ok (record {
              start_mono_ns = start;
              scheduled_end_mono_ns = end;
              successful_sends = successful;
            })

  -- What `qualification_reasons` reads of the metadata.
  unfoldable pub run_record_of : Metadata F → RunRecord F
  run_record_of metadata = record {
    requested_rate_pps = some (pos metadata.run.requested_rate_pps);
    payload_size = some metadata.run.payload_size;
    achieved_successful_send_pps = metadata.sender_stats.achieved_successful_send_pps;
    failed_sends = metadata.sender_stats.failed_sends;
    attempted_sends = metadata.sender_stats.attempted_sends;
    successful_sends = metadata.sender_stats.stats.successful_sends;
    sender_fields = metadata.sender_stats.fields;
    unique_valid_packets = metadata.receiver_stats.stats.unique_valid_packets;
    receiver_fields =
        listed "unique_processed_packets" metadata.receiver_stats.stats.unique_processed_packets
        ++ listed "spsc_overflow" metadata.receiver_stats.stats.spsc_overflow
        ++ metadata.receiver_stats.fields;
    counters = metadata.counters;
    sender_counters = metadata.sender_counters;
    receiver_before = metadata.before.receiver_state;
    receiver_after = metadata.after.receiver_state;
    sender_before = metadata.before.sender_state;
    sender_after = metadata.after.sender_state;
    thread_outcomes = metadata.sender_stats.thread_outcomes;
    pacing = reasons_of metadata.pacing;
    validity = map message metadata.reasons;
  }

  abbrev pub with_failures : Metadata F → List String → Metadata F
  with_failures metadata failures = record metadata {
    qualification = some (record { passed = is_empty failures; reasons = failures });
  }

  -- `if item.campaign == "sender_qualification": …`
  unfoldable pub qualified : Floats F → Metadata F → Result (Metadata F)
  unfolding run_record_of
  qualified floats metadata =
      if same metadata.run.campaign "sender_qualification"
      then elim (qualification_reasons floats (run_record_of metadata)) [
        | err exc ↦ err exc
        | ok failures ↦ ok (with_failures metadata failures)
      ]
      else ok metadata

  -- A file of the run in the session's directory.
  abbrev pub local_path : Plan F → String → String
  local_path plan suffix =
      str_append plan.item.benchmark_name (str_append "/" (str_append (run_id_of plan.item) suffix))

  abbrev pub set_eligible : Unit {0} → Locals F → Locals F
  set_eligible _ s = record s { cleanup_eligible = true }

module _ {F : Type 0} (lab : Lab F) (plan : Plan F) where
  abbrev pub require : String → String → Run F (Unit {0})
  require path description = ask (require_nonempty_file path description) lab.done

  -- `if remote_pacing_trace is not None and pacing_path is not None: …`
  unfoldable pub fetch_pacing : Option String → Run F (Unit {0})
  fetch_pacing none = give tt
  fetch_pacing (some remote_path) = do
    ask (fetch_file sender remote_path (local_path plan "_pacing.csv")) lab.done
    require (local_path plan "_pacing.csv") "sender pacing trace"

  unfoldable pub fetch_stats : Run F (SenderReport F × ReceiverReport)
  fetch_stats = do
    ask (fetch_file receiver (str_append (base_of plan) ".bin") (local_path plan ".bin")) lab.done
    ask
        (fetch_file receiver (str_append (base_of plan) "_rx.json")
          (local_path plan "_rx_stats.json"))
        lab.done
    ask
        (fetch_file sender (str_append (base_of plan) "_tx.json")
          (local_path plan "_tx_stats.json"))
        lab.done
    fetch_pacing (remote_pacing_trace (base_of plan) plan.benchmark)
    require (local_path plan "_rx_stats.json") "receiver stats"
    require (local_path plan "_tx_stats.json") "sender stats"
    receiver_stats ← ask (read_json (local_path plan "_rx_stats.json")) lab.receiver_stats
    sender_stats ← ask (read_json (local_path plan "_tx_stats.json")) lab.sender_stats
    give (sender_stats, receiver_stats)

  abbrev pub remote_profile : String
  remote_profile = remote_profile_of (base_of plan) plan.benchmark.profile

  -- The two branches on the profile.
  unfoldable pub add_stat : Metadata F → Run F (Metadata F)
  add_stat metadata = do
    ask (fetch_file receiver remote_profile (local_path plan "_perf_stat.csv")) lab.done
    require (local_path plan "_perf_stat.csv") "perf stat artifact"
    give (record metadata {
      profile =
          some (Profile.stat (str_append (run_id_of plan.item) "_perf_stat.csv") plan.unavailable);
    })

  unfoldable pub add_record : Metadata F → Run F (Metadata F)
  add_record metadata = do
    report ←
        ask (run receiver ("perf" ∷ "report" ∷ "--stdio" ∷ "-i" ∷ remote_profile ∷ []) 120)
          lab.output
    lift (raise_if (is_white report) (Error.runtime_error "perf report produced empty output"))
    ask (write_text (local_path plan "_perf_report.txt")) lab.done
    ask (fetch_file receiver remote_profile (local_path plan ".perf.data")) lab.done
    require (local_path plan ".perf.data") "perf record artifact"
    give (record metadata {
      profile = some (
          Profile.record_profile (str_append (run_id_of plan.item) "_perf_report.txt")
            (str_append (run_id_of plan.item) ".perf.data"));
    })

  unfoldable pub add_profile : Metadata F → Run F (Metadata F)
  add_profile metadata =
      if is_profile "stat" plan.benchmark.profile
      then add_stat metadata
      else if is_profile "record" plan.benchmark.profile
      then add_record metadata
      else give metadata

module _ {F : Type 0} (numbers : Numbers F) (floats : Floats F) (percentiles : Percentiles)
    (lab : Lab F) (plan : Plan F) where
  -- `if pacing_path is not None: metadata["pacing"] = …`
  unfoldable pub add_pacing : Bool → Metadata F → Run F (Metadata F)
  add_pacing false metadata = give metadata
  add_pacing true metadata = do
    rows ← ask (read_rows (local_path plan "_pacing.csv")) lab.rows
    report ← lift (
        analyze_rows percentiles rows.0 rows.1 (schedule_of metadata.sender_stats) plan.item.rate
          metadata.run.batch_window_us)
    give (record metadata { pacing = some report })

  -- The metadata of what was measured, written to its file.
  unfoldable pub conclude : Measured → Run F (Metadata F)
  conclude measured = do
    stats ← fetch_stats lab plan
    metadata ← lift (metadata_of numbers plan measured stats.0 stats.1)
    paced ← add_pacing (has_pacing plan.benchmark) metadata
    judged ← lift (qualified floats paced)
    final ← add_profile lab plan judged
    ask_then (write_metadata (local_path plan "_meta.json")) lab.done set_eligible
    give final
