-- ===== src/Verdict/Throttle.antt =====
-- The search for `0x([0-9a-fA-F]+)` in the output of `vcgencmd get_throttled` (main.py: `throttled`,
-- `throttling_is_clear`).
use Prim.Native.Char.{Char, code}
use Prim.Native.String.{[], ◌∷◌}
use mathlib.Core.Option.{Option, none, some}
use net_latency_lab.Base.{String, Bool, false, not, ◌&&◌, ◌||◌, leb, ◌==◌, if◌then◌else◌}

abbrev pub is_hex_digit : Char → Bool
is_hex_digit c =
    leb 48 (code c) && leb (code c) 57
    || leb 97 (code c) && leb (code c) 102
    || leb 65 (code c) && leb (code c) 70

-- `int(digits, 16) != 0` for the longest run of digits in front: one of them is not '0'.
unfoldable pub is_nonzero_run : String → Bool
is_nonzero_run [] = false
is_nonzero_run (c ∷ text) =
    let rest = is_nonzero_run text in is_hex_digit c && (not (code c == 48) || rest)

-- The group of a match that begins behind "0x", read as a test for a nonzero number.
unfoldable pub hex_group : String → Option Bool
hex_group [] = none
hex_group (c ∷ text) = if is_hex_digit c then some (is_nonzero_run (c ∷ text)) else none

unfoldable pub hex_after_zero : String → Option Bool
hex_after_zero [] = none
hex_after_zero (c ∷ text) = if code c == 120 then hex_group text else none

abbrev pub or_else : Option Bool → Option Bool → Option Bool
or_else none other = other
or_else (some b) other = some b

-- The first match in the text; none if there is none.
unfoldable pub search_flags : String → Option Bool
search_flags [] = none
search_flags (c ∷ text) =
    let rest = search_flags text in
    if code c == 48 then or_else (hex_after_zero text) rest else rest
