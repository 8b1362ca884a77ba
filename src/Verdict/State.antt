-- ===== src/Verdict/State.antt =====
-- What `run_state` and `probe` (main.py) record of a node, and the two tests of its throttling flags.
use net_latency_lab.Base.{
  String, Bool, true, false, not, Option, none, some, List, [], ◌∷◌, if◌then◌else◌, ◌≡◌, arith,
  Option-cases, inl, inr, inl, inr,
}
use net_latency_lab.Verdict.Throttle.{search_flags}
use text.Mathlib.Text.{◌==◌}

-- `{"value": …, "error": …}`
pub record Probe : Type 0 where
  pub value : Option String
  pub error : Option String

-- A dict from the probes' names.
abbrev pub State : Type 0
State = List (String × Probe)

abbrev pub lookup {ℓ} : {A : Type ℓ} → String → List (String × A) → Option A
lookup name [] = none
lookup name ((key, a) ∷ entries) = if key == name then some a else lookup name entries

-- The truth of an error: Python takes "" for false.
abbrev pub has_error : Option String → Bool
has_error none = false
has_error (some message) = not (message == "")

-- `str(value)`
abbrev pub text_of : Option String → String
text_of none = "None"
text_of (some text) = text

abbrev pub is_nonzero : Option Bool → Bool
is_nonzero none = false
is_nonzero (some b) = b

-- `bool(match) and int(match.group(1), 16) == 0`
abbrev pub is_zero : Option Bool → Bool
is_zero none = false
is_zero (some b) = not b

abbrev pub throttled_probe : Option Probe → Bool
throttled_probe none = is_nonzero (search_flags "")
throttled_probe (some probe) = is_nonzero (search_flags (text_of probe.value))

unfoldable pub throttled : State → Bool
throttled state = throttled_probe (lookup "throttled" state)

abbrev pub clear_probe : Option Probe → Bool
clear_probe none = is_zero (search_flags "")
clear_probe (some probe) =
    if has_error probe.error then false else is_zero (search_flags (text_of probe.value))

unfoldable pub throttling_is_clear : State → Bool
throttling_is_clear state = clear_probe (lookup "throttled" state)

-- The two tests never both hold of one state: what qualification takes for clear, validity does not take for
-- throttled.
pub throttling_is_clear-throttled :
    (state : State) → throttling_is_clear state ≡ true → throttled state ≡ false
unfolding throttling_is_clear throttled
throttling_is_clear-throttled state h = elim (Option-cases (lookup "throttled" state)) [
  | inl e ↦ ground (arith, e)
  | inr (probe, e) ↦ ground (arith, e)
]
