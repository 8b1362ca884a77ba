-- ===== src/Counters/Text.antt =====
-- Python's `splitlines` and "\n".join, on texts.
use Prim.Native.Char.{Char, code}
use Prim.Native.String.{[], ◌∷◌, ◌++◌, slice, len}
use mathlib.Core.List as L
use net_latency_lab.Base.{String, ◌-◌, Bool, false, ◌&&◌, ◌||◌, leb, ◌==◌, if◌then◌else◌}
use text.Mathlib.Text.{◌==◌ as same}

-- The characters that end a line.
abbrev pub is_line_break : Char → Bool
is_line_break c =
    leb 10 (code c) && leb (code c) 13
    || leb 28 (code c) && leb (code c) 30
    || code c == 133
    || code c == 8232
    || code c == 8233

abbrev pub begins_with_newline : String → Bool
begins_with_newline [] = false
begins_with_newline (c ∷ text) = code c == 10

-- A character before the rest of its line.
abbrev pub push : Char → L.List String → L.List String
push c L.[] = L.◌∷◌ (c ∷ []) L.[]
push c (L.◌∷◌ line lines) = L.◌∷◌ (c ∷ line) lines

-- A carriage return and a newline are one end of a line.
unfoldable pub splitlines : String → L.List String
splitlines [] = L.[]
splitlines (c ∷ text) =
    let rest = splitlines text in
    if code c == 13 && begins_with_newline text
    then rest
    else if is_line_break c
    then L.◌∷◌ "" rest
    else push c rest

unfoldable pub join_lines : L.List String → String
join_lines L.[] = []
join_lines (L.◌∷◌ line L.[]) = line
join_lines (L.◌∷◌ line (L.◌∷◌ next lines)) = line ++ ("\n" ++ join_lines (L.◌∷◌ next lines))

-- `line.endswith(suffix)`
abbrev pub ends_with : String → String → Bool
ends_with line suffix =
    leb (len suffix) (len line) && same (slice line (len line - len suffix) (len line)) suffix
