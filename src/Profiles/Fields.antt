-- ===== src/Profiles/Fields.antt =====
-- What `validate_profile_session` (analysis/profile_tools.py) asks of one field of the metadata.
use Prim.Native.String.{[] as end_of_text, ◌∷◌ as char_before}
use net_latency_lab.Base.{
  ℕ, suc, String, Bool, false, not, ◌||◌, Option, none, some, List, [], ◌∷◌, ◌==◌, if◌then◌else◌,
}
use net_latency_lab.Base.Int.{ℤ, pos, leb_ℤ, eqb_ℤ}
use net_latency_lab.Python.Error.{Error, Result, ok, err, raise_if, ◌>>=◌}
use net_latency_lab.Python.Show.{concat, str_nat}
use net_latency_lab.Config.Value.{
  Value, boolean, int, str, array, object, Items, Entries, value_error, find, is_text, count,
}
use text.Mathlib.Text.{◌==◌ as same}

-- The text without the suffix, none if it does not end so.
unfoldable pub without_suffix : String → String → Option String
without_suffix suffix end_of_text = if same end_of_text suffix then some "" else none
without_suffix suffix (char_before c text) =
    let rest = without_suffix suffix text in
    if same (char_before c text) suffix
    then some ""
    else elim rest [ none ↦ none | some stem ↦ some (char_before c stem) ]

abbrev pub failure : List String → Error
failure parts = value_error (concat parts)

abbrev pub expected_12 : String → Error
expected_12 found = failure ("Expected exactly 12 profile runs, found " ∷ found ∷ [])

module _ {F : Type 0} where
  -- A text that is not empty.
  unfoldable pub filled_text : Error → Option (Value F) → Result String
  filled_text exc (some (str text)) = if same text "" then err exc else ok text
  filled_text exc other = err exc

  unfoldable pub dict_of : Error → Option (Value F) → Result (Entries F)
  dict_of exc (some (object entries)) = ok entries
  dict_of exc other = err exc

  -- An int above 0 that is no bool.
  unfoldable pub pid_of : Error → Option (Value F) → Result ℤ
  pid_of exc (some (int n)) = if leb_ℤ n (pos 0) then err exc else ok n
  pid_of exc other = err exc

  abbrev pub is_true_value : Option (Value F) → Bool
  is_true_value (some (boolean b)) = b
  is_true_value other = false

  abbrev pub equals_text : String → Option (Value F) → Bool
  equals_text expected none = false
  equals_text expected (some value) = is_text expected value

  unfoldable pub check_valid : String → Entries F → Result (Unit {0})
  unfolding dict_of
  check_valid run_id metadata = do
    validity ←
        dict_of (failure ("Profile run is invalid: " ∷ run_id ∷ [])) (find "validity" metadata)
    raise_if (not (is_true_value (find "valid" validity)))
        (failure ("Profile run is invalid: " ∷ run_id ∷ []))

  unfoldable pub check_campaign : String → Entries F → Result (Unit {0})
  unfolding dict_of
  check_campaign run_id metadata = do
    run ← dict_of (failure ("Run is missing run metadata: " ∷ run_id ∷ [])) (find "run" metadata)
    raise_if (not (equals_text "profile" (find "campaign" run)))
        (failure ("Run is not in the profile campaign: " ∷ run_id ∷ []))

  unfoldable pub check_pids : String → Entries F → Result (Unit {0})
  unfolding dict_of pid_of
  check_pids run_id metadata = do
    let invalid = failure ("Run has invalid receiver/profile-wrapper PIDs: " ∷ run_id ∷ [])
    processes ←
        dict_of (failure ("Run is missing process metadata: " ∷ run_id ∷ []))
          (find "processes" metadata)
    receiver_pid ← pid_of invalid (find "receiver_pid" processes)
    wrapper_pid ← pid_of invalid (find "profile_wrapper_pid" processes)
    raise_if (eqb_ℤ receiver_pid wrapper_pid)
        (failure ("Receiver and profile-wrapper PIDs alias in " ∷ run_id ∷ []))

  abbrev pub entries_of_list : Option (Value F) → Option (Items F)
  entries_of_list (some (array items)) = some items
  entries_of_list other = none

  unfoldable pub twelve_runs : Option (Items F) → Result (Items F)
  twelve_runs none = err (expected_12 "missing")
  twelve_runs (some items) =
      if count items == 12 then ok items else err (expected_12 (str_nat (count items)))

abbrev pub count_mode : String → List String → ℕ
count_mode mode [] = 0
count_mode mode (m ∷ modes) =
    if same m mode then suc (count_mode mode modes) else count_mode mode modes

abbrev pub check_counts : ℕ → ℕ → Result (Unit {0})
check_counts stat record_runs = raise_if (not (stat == 9) || not (record_runs == 3)) (
    failure (
      "Expected 9 stat and 3 record runs, found "
      ∷ str_nat stat
      ∷ " stat and "
      ∷ str_nat record_runs
      ∷ " record"
      ∷ []))
