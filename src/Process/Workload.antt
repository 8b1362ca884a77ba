-- ===== src/Process/Workload.antt =====
-- `instrument_workload` (main.py): a shell that publishes its PID is put before the command that a wrapper starts, and
-- becomes that command.
pub mod Instrumented
mod Tests
use Prim.Native.Char.{Char, code}
use Prim.Native.String.{[] as end_of_text, ◌∷◌ as char_before, ◌++◌ as str_append}
use net_latency_lab.Base.{
  String, Bool, true, false, not, ◌&&◌, ◌||◌, Option, none, some, List, [], ◌∷◌, ◌++◌, length, take,
  drop, leb, ltb, ◌==◌, if◌then◌else◌,
}
use net_latency_lab.Base.Int.{ℤ, pos, pos_part, ltb_ℤ, leb_ℤ}
use net_latency_lab.Python.Error.{Error, Result, ok, err}

-- The characters that `shlex.quote` leaves alone: letters, digits and @%+=:,./-_
abbrev pub is_safe : Char → Bool
is_safe c =
    leb 43 (code c) && leb (code c) 58
    || leb 64 (code c) && leb (code c) 90
    || leb 97 (code c) && leb (code c) 122
    || code c == 37
    || code c == 61
    || code c == 95

unfoldable pub all_safe : String → Bool
all_safe end_of_text = true
all_safe (char_before c text) = is_safe c && all_safe text

-- `text.replace("'", "'\"'\"'")`
unfoldable pub escaped : String → String
escaped end_of_text = ""
escaped (char_before c text) =
    let rest = escaped text in
    if code c == 39 then str_append "'\"'\"'" rest else char_before c rest

abbrev pub is_blank : String → Bool
is_blank end_of_text = true
is_blank (char_before c text) = false

-- `shlex.quote`
unfoldable pub quote : String → String
quote text =
    if is_blank text
    then "''"
    else if all_safe text
    then text
    else str_append "'" (str_append (escaped text) "'")

unfoldable pub shim_script : String → String
shim_script workload_pid_path =
    let temporary = quote (str_append workload_pid_path ".tmp") in
    str_append "printf '%s' \"$$\" > " (
      str_append temporary (
        str_append "; mv -f -- " (
          str_append temporary
            (str_append " " (str_append (quote workload_pid_path) "; exec \"$@\"")))))

abbrev pub shim : String → List String
shim workload_pid_path = "sh" ∷ "-c" ∷ shim_script workload_pid_path ∷ "nll-workload" ∷ []

-- `not 0 <= workload_index < len(result)`
abbrev pub is_out_of_range : ℤ → List String → Bool
is_out_of_range index command = ltb_ℤ index (pos 0) || leb_ℤ (pos (length command)) index

unfoldable pub instrument_workload : List String → Option ℤ → Option String → Result (List String)
instrument_workload command none none = ok command
instrument_workload command none (some path) =
    err (Error.value_error "A workload PID path requires a workload index")
instrument_workload command (some index) none =
    err (Error.value_error "Invalid tracked workload specification")
instrument_workload command (some index) (some path) =
    if is_out_of_range index command
    then err (Error.value_error "Invalid tracked workload specification")
    else ok (take (pos_part index) command ++ shim path ++ drop (pos_part index) command)
