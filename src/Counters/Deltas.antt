-- ===== src/Counters/Deltas.antt =====
-- `counter_deltas` and `parse_counter` (main.py): a counter is a value or an error, and a delta exists only
-- between two values.
pub mod Reported
use net_latency_lab.Base.{
  String, Bool, true, false, not, ◌&&◌, ◌||◌, Option, none, some, List, [], ◌∷◌, ◌++◌, map, any,
  if◌then◌else◌,
}
use net_latency_lab.Base.Int.{ℤ, ◌-ℤ◌}
use net_latency_lab.Verdict.State.{lookup, has_error}
use text.Mathlib.Text.{◌==◌, is_lt}
use Prim.Native.String.{compare}

-- `{"value": …, "error": …}`, as `parse_counter` returns it.
pub record Sample : Type 0 where
  pub value : Option ℤ
  pub error : Option String

pub record CounterDelta : Type 0 where
  pub before : Option ℤ
  pub after : Option ℤ
  pub delta : Option ℤ
  pub error : Option String

-- `sorted` of a set of names: a name goes in once.
abbrev pub insert_name : String → List String → List String
insert_name name [] = name ∷ []
insert_name name (n ∷ names) =
    let rest = insert_name name names in
    if n == name then n ∷ names else if is_lt (compare n name) then n ∷ rest else name ∷ n ∷ names

abbrev pub insert_all : List (String × Sample) → List String → List String
insert_all [] names = names
insert_all ((name, sample) ∷ samples) names = insert_name name (insert_all samples names)

-- `sorted(set(before) | set(after))`
unfoldable pub names_of : List (String × Sample) → List (String × Sample) → List String
names_of before after = insert_all before (insert_all after [])

-- `samples.get(name, {"value": None, "error": …})`
abbrev pub sample_or : String → Option Sample → Sample
sample_or message none = record { value = none; error = some message }
sample_or message (some sample) = sample

-- `a or b`, of two errors: Python takes "" and None for false.
abbrev pub error_or : Option String → Option String → Option String
error_or first second = if has_error first then first else second

abbrev pub difference : Option ℤ → Option ℤ → Option ℤ
difference none second = none
difference (some a) none = none
difference (some a) (some b) = some (b -ℤ a)

unfoldable pub delta_entry : Sample → Sample → CounterDelta
delta_entry first second = record {
  before = first.value;
  after = second.value;
  delta =
      if has_error (error_or first.error second.error)
      then none
      else difference first.value second.value;
  error = error_or first.error second.error;
}

abbrev pub entry_at : List (String × Sample) → List (String × Sample) → String → CounterDelta
entry_at before after name =
    delta_entry (sample_or "missing before sample" (lookup name before))
      (sample_or "missing after sample" (lookup name after))

abbrev pub entries_at :
    List (String × Sample) → List (String × Sample) → List String → List (String × CounterDelta)
entries_at before after [] = []
entries_at before after (name ∷ names) =
    (name, entry_at before after name) ∷ entries_at before after names

unfoldable pub counter_deltas :
    List (String × Sample) → List (String × Sample) → List (String × CounterDelta)
counter_deltas before after = entries_at before after (names_of before after)
