-- ===== src/Config/Value.antt =====
-- The values of a configuration, and Python's operations on them that `validate_config` (main.py)
-- uses. `F` is the type of conversions.
use Prim.Native.Char.{Char, code}
use Prim.Native.String.{[] as end_of_text, ◌∷◌ as char_before}
use net_latency_lab.Base.{
  ℕ, suc, String, Bool, true, false, not, ◌&&◌, ◌||◌, Option, none, some, List, [], ◌∷◌, leb, ◌==◌,
  if◌then◌else◌,
}
use net_latency_lab.Base.Int.{ℤ, pos, leb_ℤ, eqb_ℤ}
use net_latency_lab.Python.Error.{Error, Result, ok, err}
use net_latency_lab.Python.Show.{str_int}
use net_latency_lab.Verdict.Qualification.{is_found}
use text.Mathlib.Text.{◌==◌ as same, find?}

mutual
  pub data Value (F : Type 0) : Type 0 where
    null : Value F
    boolean : Bool → Value F
    int : ℤ → Value F
    float : F → Value F
    str : String → Value F
    array : Items F → Value F
    object : Entries F → Value F

  pub data Items (F : Type 0) : Type 0 where
    nil : Items F
    cons : Value F → Items F → Items F

  pub data Entries (F : Type 0) : Type 0 where
    end : Entries F
    entry : String → Value F → Entries F → Entries F

-- What the source does with conversions: comparisons with an integer, and conversions.
pub record Conversions (F : Type 0) : Type 0 where
  -- `f <= n`, `n <= f`, `f < n` and `f == n`
  pub at_most : F → ℤ → Bool
  pub at_least : F → ℤ → Bool
  pub below : F → ℤ → Bool
  pub equals : F → ℤ → Bool
  pub one : F
  -- `float(text)`, none where it raises ValueError
  pub of_text : String → Option F
  -- `str` of a float, a list or a dict
  pub str_other : Value F → String

abbrev pub value_error : String → Error
value_error = Error.value_error

abbrev pub holds : (ℤ → Bool) → Option ℤ → Bool
holds test none = false
holds test (some n) = test n

module _ {F : Type 0} where
  -- `entries.get(key)`
  unfoldable pub find : String → Entries F → Option (Value F)
  find key end = none
  find key (entry name value entries) =
      let rest = find key entries in if same name key then some value else rest

  abbrev pub found_or : Value F → Option (Value F) → Value F
  found_or default none = default
  found_or default (some value) = value

  abbrev pub has : Option (Value F) → Bool
  has none = false
  has (some value) = true

  -- `value.get(key, default)`: only a dict has `get`.
  abbrev pub get : Value F → String → Value F → Result (Value F)
  get (object entries) key default = ok (found_or default (find key entries))
  get other key default = err Error.attribute_error

  abbrev pub required : String → Option (Value F) → Result (Value F)
  required key none = err (Error.key_error key)
  required key (some value) = ok value

  -- `value[key]`
  abbrev pub index : Value F → String → Result (Value F)
  index (object entries) key = required key (find key entries)
  index other key = err Error.type_error

  -- `value == text`
  abbrev pub is_text : String → Value F → Bool
  is_text expected (str t) = same t expected
  is_text expected other = false

  abbrev pub any_text : String → Items F → Bool
  any_text expected nil = false
  any_text expected (cons value items) = is_text expected value || any_text expected items

  -- `key in value`
  abbrev pub is_in : String → Value F → Result Bool
  is_in key (object entries) = ok (has (find key entries))
  is_in key (array items) = ok (any_text key items)
  is_in key (str t) = ok (is_found (find? t key))
  is_in key other = err Error.type_error

  -- An element of a set must have a hash.
  abbrev pub is_hashable : Value F → Bool
  is_hashable (array items) = false
  is_hashable (object entries) = false
  is_hashable other = true

  abbrev pub is_among : Value F → List String → Bool
  is_among value [] = false
  is_among value (name ∷ names) = is_text name value || is_among value names

  -- `value in {"…", …}`
  abbrev pub is_member : Value F → List String → Result Bool
  is_member value names =
      if is_hashable value then ok (is_among value names) else err Error.type_error

  -- The int that a value is: `isinstance` takes a bool for one.
  abbrev pub as_int : Value F → Option ℤ
  as_int (int n) = some n
  as_int (boolean true) = some (pos 1)
  as_int (boolean false) = some (pos 0)
  as_int other = none

  -- `isinstance(value, int) and low <= value <= high`
  abbrev pub is_int_in : ℤ → ℤ → Value F → Bool
  is_int_in low high value = holds (λ n. leb_ℤ low n && leb_ℤ n high) (as_int value)

  -- `isinstance(value, int) and low <= value`
  abbrev pub is_int_from : ℤ → Value F → Bool
  is_int_from low value = holds (λ n. leb_ℤ low n) (as_int value)

  abbrev pub all_items : (Value F → Bool) → Items F → Bool
  all_items test nil = true
  all_items test (cons value items) = test value && all_items test items

  abbrev pub count : Items F → ℕ
  count nil = 0
  count (cons value items) = suc (count items)

  -- The truth of a value.
  abbrev pub is_true : Conversions F → Value F → Bool
  is_true conversions null = false
  is_true conversions (boolean b) = b
  is_true conversions (int n) = not (eqb_ℤ n (pos 0))
  is_true conversions (float f) = not (conversions.equals f (pos 0))
  is_true conversions (str t) = not (same t "")
  is_true conversions (array nil) = false
  is_true conversions (array (cons value items)) = true
  is_true conversions (object end) = false
  is_true conversions (object (entry name value entries)) = true

  -- `str(value)`
  abbrev pub str_value : Conversions F → Value F → String
  str_value conversions null = "None"
  str_value conversions (boolean true) = "True"
  str_value conversions (boolean false) = "False"
  str_value conversions (int n) = str_int n
  str_value conversions (str t) = t
  str_value conversions other = conversions.str_other other

-- A letter, a digit or an underscore, of ASCII.
abbrev pub is_word : Char → Bool
is_word c =
    leb 48 (code c) && leb (code c) 57
    || leb 65 (code c) && leb (code c) 90
    || code c == 95
    || leb 97 (code c) && leb (code c) 122

-- `re.fullmatch("[A-Za-z0-9_…]+", text)` of a text that is not empty
unfoldable pub all_chars : (Char → Bool) → String → Bool
all_chars test end_of_text = true
all_chars test (char_before c t) = test c && all_chars test t

abbrev pub is_interface_char : Char → Bool
is_interface_char c = is_word c || code c == 45 || code c == 46 || code c == 58

abbrev pub is_name_char : Char → Bool
is_name_char c = is_word c || code c == 45
