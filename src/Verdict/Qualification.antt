-- ===== src/Verdict/Qualification.antt =====
-- `qualification_reasons` and `link_is_gigabit_full` (main.py): what keeps a rate from being qualified.
pub mod Groups
pub mod Passed
use net_latency_lab.Base.{
  ℕ, String, Bool, true, false, not, ◌&&◌, ◌||◌, Option, none, some, List, [], ◌∷◌, ◌++◌, any,
  length, if◌then◌else◌,
}
use net_latency_lab.Base.Int.{ℤ, pos, ◌+ℤ◌, ◌*ℤ◌, eqb_ℤ, ltb_ℤ}
use net_latency_lab.Python.Error.{Error, Result, ok, err, ◌>>=◌}
use net_latency_lab.Counters.Deltas.{CounterDelta}
use net_latency_lab.Verdict.Notes.{note_if}
use net_latency_lab.Verdict.State.{Probe, State, lookup, has_error, text_of, throttling_is_clear}
use net_latency_lab.Verdict.Stats.{required, get_or}
use text.Mathlib.Text.{◌==◌, find?}
use Prim.Native.String.{◌++◌ as str_append}

-- The comparisons that the source makes in floating point, on a type of floats.
pub record Floats (F : Type 0) : Type 0 where
  -- `.99 * rate <= achieved <= 1.01 * rate`
  pub is_in_band : ℤ → F → Bool
  -- `reordered / packets >= .0001`
  pub is_frequent : ℤ → ℤ → Bool

-- What the function reads of the metadata of a run. A dict of integers that are read by `get` with a default is
-- a list of pairs; a missing state is empty.
pub record RunRecord (F : Type 0) : Type 0 where
  pub requested_rate_pps : Option ℤ
  pub payload_size : Option ℤ
  pub achieved_successful_send_pps : Option F
  pub failed_sends : Option ℤ
  pub attempted_sends : Option ℤ
  pub successful_sends : Option ℤ
  pub sender_fields : List (String × ℤ)
  pub unique_valid_packets : Option ℤ
  pub receiver_fields : List (String × ℤ)
  pub counters : List (String × CounterDelta)
  pub sender_counters : List (String × CounterDelta)
  pub receiver_before : State
  pub receiver_after : State
  pub sender_before : State
  pub sender_after : State
  -- `outcome.get("affinity_success")` of each outcome
  pub thread_outcomes : List (Option Bool)
  -- the reasons of the pacing analysis, if there is one
  pub pacing : Option (List String)
  pub validity : List String

-- The numbers that are read by an index.
pub record Readings (F : Type 0) : Type 0 where
  pub rate : ℤ
  pub achieved : F
  pub failed : ℤ
  pub attempted : ℤ
  pub successful : ℤ
  pub payload : ℤ
  pub unique_valid : ℤ

-- `stats[key]`, of a float
abbrev pub required_float : {F : Type 0} → String → Option F → Result F
required_float key none = err (Error.key_error key)
required_float key (some value) = ok value

unfoldable pub readings_of : {F : Type 0} → RunRecord F → Result (Readings F)
readings_of run = do
  rate ← required "requested_rate_pps" run.requested_rate_pps
  achieved ← required_float "achieved_successful_send_pps" run.achieved_successful_send_pps
  failed ← required "failed_sends" run.failed_sends
  attempted ← required "attempted_sends" run.attempted_sends
  successful ← required "successful_sends" run.successful_sends
  payload ← required "payload_size" run.payload_size
  unique_valid ← required "unique_valid_packets" run.unique_valid_packets
  ok (record {
    rate = rate;
    achieved = achieved;
    failed = failed;
    attempted = attempted;
    successful = successful;
    payload = payload;
    unique_valid = unique_valid;
  })

-- `int(stats.get(field, 0))`
abbrev pub count_in : List (String × ℤ) → String → ℤ
count_in fields name = get_or (lookup name fields) (pos 0)

unfoldable pub packet_reasons : {F : Type 0} → Floats F → RunRecord F → Readings F → List String
packet_reasons floats run r =
    note_if (not (floats.is_in_band r.rate r.achieved)) "achieved/requested pps is outside 99-101%"
    ++ note_if (not (eqb_ℤ r.failed (pos 0))) "sender reported failed sends"
    ++ note_if (not (eqb_ℤ r.attempted (r.successful +ℤ r.failed)))
        "sender packet accounting does not reconcile"
    ++ note_if
        (not (eqb_ℤ (count_in run.sender_fields "successful_bytes") (r.successful *ℤ r.payload)))
        "sender byte accounting does not reconcile"
    ++ note_if (not (eqb_ℤ r.unique_valid r.successful))
        "sender and receiver unique packet counts do not reconcile"
    ++ note_if (not (eqb_ℤ (count_in run.receiver_fields "unique_processed_packets") r.successful))
        "sender and receiver processed packet counts do not reconcile"

-- One of the loops over the fields that must be zero.
unfoldable pub nonzero_reasons : List String → List (String × ℤ) → List String
nonzero_reasons [] stats = []
nonzero_reasons (field ∷ fields) stats =
    note_if (not (eqb_ℤ (count_in stats field) (pos 0)))
      (str_append "receiver reported nonzero " field)
    ++ nonzero_reasons fields stats

abbrev pub receive_fields : List String
receive_fields = "receive_sequence_gaps" ∷ "receive_duplicates" ∷ []

abbrev pub processing_fields : List String
processing_fields =
    "processed_sequence_gaps" ∷ "processed_duplicates" ∷ "short_packets" ∷ "invalid_magic"
    ∷ "unsupported_version" ∷ "spsc_overflow" ∷ []

-- `max(1, packets)`
abbrev pub at_least_one : ℤ → ℤ
at_least_one packets = if ltb_ℤ packets (pos 1) then pos 1 else packets

unfoldable pub reordering_reasons : {F : Type 0} → Floats F → RunRecord F → Readings F → List String
reordering_reasons floats run r =
    note_if
      (floats.is_frequent (count_in run.receiver_fields "receive_reordered")
        (at_least_one r.unique_valid))
      "receiver reordering is not below 0.01%"

abbrev pub delta_reason : String → Bool → Option ℤ → List String
delta_reason label failed none = str_append label " is unavailable" ∷ []
delta_reason label true (some delta) = str_append label " is unavailable" ∷ []
delta_reason label false (some delta) =
    note_if (not (eqb_ℤ delta (pos 0))) (str_append label " changed")

unfoldable pub counter_reasons : String → List (String × CounterDelta) → List String
counter_reasons side [] = []
counter_reasons side ((name, counter) ∷ counters) =
    delta_reason (str_append side (str_append "." name)) (has_error counter.error) counter.delta
    ++ counter_reasons side counters

-- `part in text`, by the place where the part begins
abbrev pub is_found : Option ℕ → Bool
is_found none = false
is_found (some position) = true

abbrev pub gigabit_probe : Option Probe → Bool
gigabit_probe none = false
gigabit_probe (some probe) =
    let text = text_of probe.value in
    not (has_error probe.error)
    && is_found (find? text "Speed: 1000Mb/s")
    && is_found (find? text "Duplex: Full")

unfoldable pub link_is_gigabit_full : State → Bool
link_is_gigabit_full state = gigabit_probe (lookup "link" state)

-- One round of the loop over the roles.
unfoldable pub role_reasons : String → State → State → List String
role_reasons role before after =
    note_if (not (link_is_gigabit_full before) || not (link_is_gigabit_full after))
      (str_append role " link was not stably 1 Gb/s full duplex")
    ++ note_if (not (throttling_is_clear before) || not (throttling_is_clear after))
        (str_append role " throttling state was unavailable or nonzero")

-- `outcome.get("affinity_success", False)`
abbrev pub is_unsuccessful : Option Bool → Bool
is_unsuccessful success = not (get_or success false)

unfoldable pub thread_reasons : {F : Type 0} → RunRecord F → List String
thread_reasons run =
    note_if
      (not (
          eqb_ℤ (pos (length run.thread_outcomes))
            (get_or (lookup "threads" run.sender_fields) (pos 1)))
        || any is_unsuccessful run.thread_outcomes)
      "sender thread/CPU outcomes are incomplete or unsuccessful"

abbrev pub pacing_reasons : Option (List String) → List String
pacing_reasons none = "pacing trace analysis is missing" ∷ []
pacing_reasons (some reasons) = reasons

-- `list(dict.fromkeys(reasons))`: what is left of `reasons` after those that were `seen`.
abbrev pub is_among : String → List String → Bool
is_among reason seen = any (λ s. s == reason) seen

unfoldable pub first_occurrences : List String → List String → List String
first_occurrences seen [] = []
first_occurrences seen (reason ∷ reasons) =
    let rest = first_occurrences (reason ∷ seen) reasons in
    if is_among reason seen then rest else reason ∷ rest

unfoldable pub all_reasons : {F : Type 0} → Floats F → RunRecord F → Readings F → List String
all_reasons floats run r =
    packet_reasons floats run r
    ++ nonzero_reasons receive_fields run.receiver_fields
    ++ reordering_reasons floats run r
    ++ nonzero_reasons processing_fields run.receiver_fields
    ++ counter_reasons "counters" run.counters
    ++ counter_reasons "sender_counters" run.sender_counters
    ++ role_reasons "receiver" run.receiver_before run.receiver_after
    ++ role_reasons "sender" run.sender_before run.sender_after
    ++ thread_reasons run
    ++ pacing_reasons run.pacing
    ++ run.validity

unfoldable pub qualification_reasons : {F : Type 0} → Floats F → RunRecord F → Result (List String)
qualification_reasons floats run = do
  r ← readings_of run
  ok (first_occurrences [] (all_reasons floats run r))
