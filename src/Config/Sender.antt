-- ===== src/Config/Sender.antt =====
-- The checks of `validate_config` (main.py) on the sender of a benchmark.
use net_latency_lab.Base.{String, Bool, true, false, not, ◌&&◌, List, [], ◌∷◌}
use net_latency_lab.Base.Int.{pos, ltb_ℤ}
use net_latency_lab.Python.Error.{Result, ok, raise_if, ◌>>=◌, ◌>>◌}
use net_latency_lab.Config.Value.{
  Value, null, int, array, Conversions, get, index, is_text, is_in, is_int_in, is_int_from,
}
use net_latency_lab.Config.Benchmark.{
  in_benchmark, one_item, is_filled_list, is_only_one, int_or, check_required, check_mode,
  check_cpus, is_null, is_boolean,
}

abbrev pub sender_keys : List String
sender_keys = "mode" ∷ "duration_seconds" ∷ "rates_pps" ∷ "payload_size" ∷ []

module _ {F : Type 0} (conversions : Conversions F) where
  abbrev pub check_pacing_value : String → Value F → Result (Unit {0})
  check_pacing_value name value =
      raise_if (not (is_boolean value)) (in_benchmark name "pacing_trace must be boolean")

  abbrev pub check_pacing : String → Value F → Bool → Result (Unit {0})
  check_pacing name sender false = ok tt
  check_pacing name sender true = index sender "pacing_trace" >>= check_pacing_value name

  -- `rates_pps` and `payload_size`
  unfoldable pub check_load : String → Value F → Result (Unit {0})
  check_load name sender = do
    rates ← index sender "rates_pps"
    raise_if (not (is_filled_list (is_int_from (pos 1)) rates))
        (in_benchmark name "rates_pps must be positive integers")
    payload ← index sender "payload_size"
    raise_if (not (is_int_in (pos 16) (pos 65507) payload))
        (in_benchmark name "payload_size must be 16..65507")

  -- The threads and their CPUs
  unfoldable pub check_threads : String → Value F → Value F → Result (Unit {0})
  check_threads name sender mode = do
    threads ← get sender "threads" (int (pos 1))
    cpus ← get sender "cpus" null
    raise_if (not (is_int_in (pos 1) (pos 128) threads))
        (in_benchmark name "threads must be 1..128")
    check_cpus conversions name (int_or conversions threads (pos 1)) cpus
    raise_if (ltb_ℤ (pos 1) (int_or conversions threads (pos 1)) && is_null cpus)
        (in_benchmark name "multiple sender threads require cpus")
    raise_if (is_text "burst" mode && ltb_ℤ (pos 1) (int_or conversions threads (pos 1)))
        (in_benchmark name "burst mode supports one sender thread")

  unfoldable pub check_sender : String → Value F → Result (Unit {0})
  check_sender name sender = do
    check_required conversions name sender sender_keys
    mode ← index sender "mode"
    check_mode conversions name sender mode
    check_load name sender
    bursts ← get sender "burst_sizes" (array one_item)
    raise_if (is_text "steady" mode && not (is_only_one conversions bursts))
        (in_benchmark name "steady mode requires burst_sizes: [1]")
    send_batch_max ← get sender "send_batch_max" (int (pos 1))
    batch_window_us ← get sender "batch_window_us" (int (pos 10))
    raise_if (not (is_int_in (pos 1) (pos 1024) send_batch_max))
        (in_benchmark name "send_batch_max must be 1..1024")
    raise_if (not (is_int_in (pos 1) (pos 1_000_000) batch_window_us))
        (in_benchmark name "batch_window_us must be 1..1000000")
    check_threads name sender mode
    present ← is_in "pacing_trace" sender
    check_pacing name sender present
