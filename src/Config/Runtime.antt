-- ===== src/Config/Runtime.antt =====
-- The checks of `validate_config` (main.py) on the runtime settings.
use net_latency_lab.Base.{
  String, Bool, true, not, ◌&&◌, Option, none, some, List, [], ◌∷◌, if◌then◌else◌,
}
use net_latency_lab.Base.Int.{ℤ, pos, ltb_ℤ, leb_ℤ, eqb_ℤ}
use net_latency_lab.Python.Error.{Error, Result, ok, err, raise_if, ◌>>=◌, ◌>>◌}
use net_latency_lab.Python.Show.{concat}
use net_latency_lab.Config.Value.{
  Value, null, float, Entries, Conversions, value_error, find, found_or, required, is_text,
  is_member, as_int, holds, is_int_in, is_int_from,
}
use net_latency_lab.Config.Global.{missing_keys, raise_missing}

abbrev pub runtime_keys : List String
runtime_keys =
    "port" ∷ "priority" ∷ "receiver_startup_seconds" ∷ "repetitions" ∷ "scheduler"
    ∷ "shutdown_timeout_seconds" ∷ []

abbrev pub schedulers : List String
schedulers = "other" ∷ "fifo" ∷ "rr" ∷ []

abbrev pub priority_error : Error
priority_error = value_error "scheduler priority is inconsistent with policy"

module _ {F : Type 0} (conversions : Conversions F) where
  -- `isinstance(value, (int, float)) and value > 0`, where `>` is the negation of `<=`
  abbrev pub is_positive_number : Value F → Bool
  is_positive_number (float f) = not (conversions.at_most f (pos 0))
  is_positive_number other = holds (λ n. not (leb_ℤ n (pos 0))) (as_int other)

  -- `isinstance(value, (int, float))`, and not `value < 0`
  abbrev pub is_not_negative_number : Value F → Bool
  is_not_negative_number (float f) = not (conversions.below f (pos 0))
  is_not_negative_number other = holds (λ n. not (ltb_ℤ n (pos 0))) (as_int other)

  -- `value is None`, or a nonnegative integer
  abbrev pub is_cpu : Value F → Bool
  is_cpu null = true
  is_cpu other = is_int_from (pos 0) other

  -- `value == 0`
  abbrev pub equals_zero : Value F → Bool
  equals_zero (float f) = conversions.equals f (pos 0)
  equals_zero other = holds (λ n. eqb_ℤ n (pos 0)) (as_int other)

  abbrev pub int_in_range : Option ℤ → Result Bool
  int_in_range none = err Error.type_error
  int_in_range (some n) = ok (leb_ℤ (pos 1) n && leb_ℤ n (pos 99))

  -- `1 <= value <= 99`: what is no number cannot be compared.
  abbrev pub is_in_range : Value F → Result Bool
  is_in_range (float f) = ok (conversions.at_least f (pos 1) && conversions.at_most f (pos 99))
  is_in_range other = int_in_range (as_int other)

  unfoldable pub check_priority : Value F → Value F → Result (Unit {0})
  check_priority scheduler priority =
      if is_text "other" scheduler
      then raise_if (not (equals_zero priority)) priority_error
      else (is_in_range priority >>= λ inside. raise_if (not inside) priority_error)

  abbrev pub check_delay : String → Entries F → Result (Unit {0})
  check_delay name runtime = required name (find name runtime) >>= λ delay.
      raise_if (not (is_positive_number delay))
        (value_error (concat (name ∷ " must be positive" ∷ [])))

  abbrev pub check_cpu : String → Entries F → Result (Unit {0})
  check_cpu name runtime =
      raise_if (not (is_cpu (found_or null (find name runtime))))
        (value_error (concat (name ∷ " must be null or a nonnegative integer" ∷ [])))

  unfoldable pub check_runtime : Entries F → Result (Unit {0})
  check_runtime runtime = do
    raise_missing "global.runtime" (missing_keys runtime runtime_keys)
    repetitions ← required "repetitions" (find "repetitions" runtime)
    raise_if (not (is_int_from (pos 1) repetitions))
        (value_error "repetitions must be a positive integer")
    port ← required "port" (find "port" runtime)
    raise_if (not (is_int_in (pos 1) (pos 65535) port)) (value_error "port must be 1..65535")
    check_delay "receiver_startup_seconds" runtime
    check_delay "shutdown_timeout_seconds" runtime
    raise_if
        (not (
          is_not_negative_number
            (found_or (float conversions.one) (find "post_sender_drain_seconds" runtime))))
        (value_error "post_sender_drain_seconds must be nonnegative")
    check_cpu "receiver_cpu" runtime
    check_cpu "worker_cpu" runtime
    check_cpu "sender_cpu" runtime
    scheduler ← required "scheduler" (find "scheduler" runtime)
    known ← is_member scheduler schedulers
    raise_if (not known) (value_error "scheduler must be other, fifo, or rr")
    priority ← required "priority" (find "priority" runtime)
    check_priority scheduler priority
