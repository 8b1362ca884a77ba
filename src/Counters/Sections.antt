-- ===== src/Counters/Sections.antt =====
-- `split_counter_sections` and `parse_counter` (main.py): one probe that prints every counter under a header line.
pub mod Lines
pub mod Isolated
use net_latency_lab.Base.{
  String, Bool, true, false, not, ◌&&◌, Option, none, some, List, [], ◌∷◌, ◌++◌, map, ◌-◌,
  if◌then◌else◌,
}
use net_latency_lab.Python.Error.{Error, Result, ok, err}
use net_latency_lab.Counters.Text.{splitlines, join_lines, ends_with}
use net_latency_lab.Verdict.State.{Probe, lookup}
use text.Mathlib.Text.{◌==◌, starts_with}
use Prim.Native.String.{slice, len, ◌++◌ as str_append}

abbrev pub section_prefix : String
section_prefix = "<<<NLL-COUNTER "

abbrev pub is_header : String → Bool
is_header line = starts_with line section_prefix && ends_with line ">>>"

-- `line[len(COUNTER_SECTION_PREFIX):-3]`
abbrev pub section_name : String → String
section_name line = slice line (len section_prefix) (len line - 3)

-- `{name: probe for name in names}`
abbrev pub repeat_for : Probe → List String → List (String × Probe)
repeat_for probe [] = []
repeat_for probe (name ∷ names) = (name, probe) ∷ repeat_for probe names

-- `captured[name] = probe`, of a key that is there.
abbrev pub put : String → Probe → List (String × Probe) → List (String × Probe)
put name probe [] = []
put name probe ((key, old) ∷ captured) =
    let rest = put name probe captured in
    if key == name then (key, probe) ∷ captured else (key, old) ∷ rest

abbrev pub is_some {ℓ} : {A : Type ℓ} → Option A → Bool
is_some none = false
is_some (some a) = true

-- The sections are missing until they are found.
abbrev pub missing : String → Probe
missing name = record {
  value = none;
  error = some (str_append "counter section " (str_append name " is missing"));
}

abbrev pub missing_all : List String → List (String × Probe)
missing_all [] = []
missing_all (name ∷ names) = (name, missing name) ∷ missing_all names

-- The variables of the loop.
pub record Splitter : Type 0 where
  pub captured : List (String × Probe)
  pub current : Option String
  pub lines : List String

abbrev pub section : List String → Probe
section lines = record { value = some (join_lines lines); error = none }

-- `flush()`
abbrev pub flushed : List (String × Probe) → Option String → List String → List (String × Probe)
flushed captured none lines = captured
flushed captured (some name) lines = put name (section lines) captured

abbrev pub append_if_current : Option String → List String → String → List String
append_if_current none lines line = lines
append_if_current (some name) lines line = lines ++ (line ∷ [])

-- The body of the loop.
abbrev pub enter : List (String × Probe) → String → Splitter
enter captured name = record {
  captured = captured;
  current = if is_some (lookup name captured) then some name else none;
  lines = [];
}

unfoldable pub split_line : Splitter → String → Splitter
split_line s line =
    if is_header line
    then enter (flushed s.captured s.current s.lines) (section_name line)
    else record {
      captured = s.captured;
      current = s.current;
      lines = append_if_current s.current s.lines line;
    }

unfoldable pub split_lines : Splitter → List String → List (String × Probe)
split_lines s [] = flushed s.captured s.current s.lines
split_lines s (line ∷ lines) = split_lines (split_line s line) lines

abbrev pub split_value : Option String → List String → Result (List (String × Probe))
split_value none names = err Error.attribute_error
split_value (some text) names = ok (
    split_lines (record { captured = missing_all names; current = none; lines = [] })
      (splitlines text))

unfoldable pub split_counter_sections : Probe → List String → Result (List (String × Probe))
split_counter_sections sample names = elim sample.error [
  | some message ↦ ok (repeat_for sample names)
  | none ↦ split_value sample.value names
]
