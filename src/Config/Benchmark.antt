-- ===== src/Config/Benchmark.antt =====
-- The checks of `validate_config` (main.py) on one benchmark.
use net_latency_lab.Base.{
  String, Bool, true, false, not, ◌&&◌, ◌||◌, Option, none, some, List, [], ◌∷◌, any, if◌then◌else◌,
}
use net_latency_lab.Base.Int.{ℤ, pos, leb_ℤ, eqb_ℤ}
use net_latency_lab.Python.Error.{Error, Result, ok, err, raise_if, ◌>>=◌, ◌>>◌}
use net_latency_lab.Python.Show.{concat}
use net_latency_lab.Config.Value.{
  Value, null, boolean, int, float, str, array, Items, nil, cons, Conversions, value_error, get,
  index, is_text, is_in, is_member, is_hashable, is_true, as_int, holds, is_int_in, is_int_from,
  all_items, count, str_value, all_chars, is_name_char,
}
use text.Mathlib.Text.{◌==◌ as same}

-- `f"{name}: …"`
abbrev pub in_benchmark : String → String → Error
in_benchmark name message = value_error (concat (name ∷ ": " ∷ message ∷ []))

abbrev pub name_error : Error
name_error = value_error "Benchmark names must be unique safe identifiers"

abbrev pub is_used : String → List String → Bool
is_used name names = any (λ n. same n name) names

abbrev pub binaries : List String
binaries = "receiver_baseline" ∷ "receiver_batched" ∷ "receiver_threaded" ∷ []

abbrev pub modes : List String
modes = "steady" ∷ "burst" ∷ "flood" ∷ []

module _ {F : Type 0} where
  abbrev pub one_item : Items F
  one_item = cons (int (pos 1)) nil

  -- A list that is not empty, with items that pass a test.
  abbrev pub is_filled_list : (Value F → Bool) → Value F → Bool
  is_filled_list test (array (cons value items)) = all_items test (cons value items)
  is_filled_list test other = false

  abbrev pub is_null : Value F → Bool
  is_null null = true
  is_null other = false

  abbrev pub is_boolean : Value F → Bool
  is_boolean (boolean b) = true
  is_boolean other = false

module _ {F : Type 0} (conversions : Conversions F) where
  -- The name, if it is new and of the right characters.
  abbrev pub name_text : List String → Value F → Result String
  name_text names (str t) =
      if same t "" || is_used t names || not (all_chars is_name_char t)
      then err name_error
      else ok t
  name_text names other = if is_true conversions other then err Error.type_error else err name_error

  abbrev pub equals_one : Value F → Bool
  equals_one (float f) = conversions.equals f (pos 1)
  equals_one other = holds (λ n. eqb_ℤ n (pos 1)) (as_int other)

  -- `value == [1]`
  abbrev pub is_only_one : Value F → Bool
  is_only_one (array (cons value nil)) = equals_one value
  is_only_one other = false

  abbrev pub int_or : Value F → ℤ → ℤ
  int_or value default = elim (as_int value) [ none ↦ default | some n ↦ n ]

  -- `float(value) <= 0`
  abbrev pub float_text : Option F → Result Bool
  float_text none = err (value_error "could not convert string to float")
  float_text (some f) = ok (conversions.at_most f (pos 0))

  abbrev pub float_int : Option ℤ → Result Bool
  float_int none = err Error.type_error
  float_int (some n) = ok (leb_ℤ n (pos 0))

  abbrev pub is_not_positive : Value F → Result Bool
  is_not_positive (float f) = ok (conversions.at_most f (pos 0))
  is_not_positive (str t) = float_text (conversions.of_text t)
  is_not_positive other = float_int (as_int other)

  unfoldable pub check_receiver : String → Value F → Result (Unit {0})
  check_receiver name receiver = do
    binary ← get receiver "binary" null
    known ← is_member binary binaries
    raise_if (not known)
        (value_error (concat ("Unknown receiver binary: " ∷ str_value conversions binary ∷ [])))
    batches ← get receiver "batch_sizes" (array one_item)
    raise_if (not (is_filled_list (is_int_in (pos 1) (pos 1024)) batches))
        (in_benchmark name "batch_sizes must contain integers 1..1024")
    raise_if (is_text "receiver_baseline" binary && not (is_only_one batches))
        (in_benchmark name "baseline only supports batch size 1")
    work_ns ← get receiver "work_ns" (int (pos 0))
    raise_if (not (is_int_from (pos 0) work_ns))
        (in_benchmark name "receiver.work_ns must be a nonnegative integer")
    sample_every ← get receiver "sample_every" (int (pos 1))
    raise_if (not (is_int_from (pos 0) sample_every))
        (in_benchmark name "receiver.sample_every must be a nonnegative integer")

  -- The loop over the fields that a sender must have.
  unfoldable pub check_required : String → Value F → List String → Result (Unit {0})
  check_required name sender [] = ok tt
  check_required name sender (field ∷ fields) =
      let rest = check_required name sender fields in
      is_in field sender >>= λ present.
      raise_if (not present) (in_benchmark name (concat ("sender." ∷ field ∷ " is required" ∷ [])))
      >> rest

  abbrev pub mode_error : String → Error
  mode_error name = in_benchmark name "invalid sender mode or duration"

  -- `sender["mode"] not in {…} or float(sender["duration_seconds"]) <= 0`
  unfoldable pub check_mode : String → Value F → Value F → Result (Unit {0})
  check_mode name sender mode = do
    known ← is_member mode modes
    raise_if (not known) (mode_error name)
    duration ← index sender "duration_seconds"
    stopped ← is_not_positive duration
    raise_if stopped (mode_error name)

  abbrev pub all_hashable : Items F → Bool
  all_hashable items = all_items is_hashable items

  abbrev pub has_int : ℤ → Items F → Bool
  has_int n nil = false
  has_int n (cons value items) = holds (λ m. eqb_ℤ m n) (as_int value) || has_int n items

  abbrev pub are_distinct : Items F → Bool
  are_distinct nil = true
  are_distinct (cons value items) = not (has_int (int_or value (pos 0)) items) && are_distinct items

  abbrev pub cpus_error : String → Error
  cpus_error name = in_benchmark name "cpus must contain one distinct nonnegative CPU per thread"

  -- A list of the right length goes into a set, which needs hashes; a list with an item that is no
  -- nonnegative integer is refused, however many of its items are equal.
  abbrev pub check_cpu_items : String → ℤ → Items F → Result (Unit {0})
  check_cpu_items name threads items = do
    raise_if (not (eqb_ℤ (pos (count items)) threads)) (cpus_error name)
    raise_if (not (all_hashable items)) Error.type_error
    raise_if (not (all_items (is_int_from (pos 0)) items && are_distinct items)) (cpus_error name)

  unfoldable pub check_cpus : String → ℤ → Value F → Result (Unit {0})
  check_cpus name threads null = ok tt
  check_cpus name threads (array items) = check_cpu_items name threads items
  check_cpus name threads other = err (cpus_error name)
