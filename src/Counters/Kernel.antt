-- ===== src/Counters/Kernel.antt =====
-- The parsers of /proc/net and of the output of `tc` and `ethtool` (main.py). Word characters are those
-- of ASCII.
use Prim.Native.Char.{Char, code}
use Prim.Native.String.{[] as end_of_text, ◌∷◌ as char_before, slice, len, ◌++◌ as str_append}
use net_latency_lab.Base.{
  ℕ, suc, ◌+◌, ◌-◌, ◌*◌, String, Bool, true, false, not, ◌&&◌, ◌||◌, Option, none, some, List, [],
  ◌∷◌, map, filter, drop, get_elem?, leb, ◌==◌, if◌then◌else◌,
}
use net_latency_lab.Base.Int.{ℤ, pos, ◌+ℤ◌}
use net_latency_lab.Python.Error.{Error, Result, ok, err, raise_if, ◌>>=◌, ◌>>◌}
use net_latency_lab.Python.Spaces.{is_space, is_white, strip, split_words, is_digit, read_int}
use net_latency_lab.Counters.Text.{splitlines}
use text.Mathlib.Text.{◌==◌ as same, starts_with}

-- `lines[-2], lines[-1]`, none if there are fewer than two.
abbrev pub last_two : List (List String) → Option (List String × List String)
last_two [] = none
last_two (line ∷ []) = none
last_two (headers ∷ values ∷ []) = some (headers, values)
last_two (line ∷ next ∷ third ∷ lines) = last_two (next ∷ third ∷ lines)

unfoldable pub udp_lines : String → List (List String)
unfolding splitlines split_words
udp_lines text = map split_words (filter (λ line. starts_with line "Udp:") (splitlines text))

-- `headers.index(counter)`, none where it is not in `headers`.
unfoldable pub index_of : String → List String → Option ℕ
index_of counter [] = none
index_of counter (header ∷ headers) =
    let rest = index_of counter headers in
    if same header counter
    then some 0
    else elim rest [ none ↦ none | some index ↦ some (suc index) ]

abbrev pub read_field : Option String → Result ℤ
read_field none = err Error.index_error
read_field (some field) = read_int field

abbrev pub value_at : List String → String → Option ℕ → Result ℤ
value_at values counter none =
    err (Error.value_error (str_append "UDP " (str_append counter " is unavailable")))
value_at values counter (some index) = read_field (get_elem? values index)

abbrev pub named_counter : Option (List String × List String) → String → Result ℤ
named_counter none counter = err (Error.value_error "/proc/net/snmp has no UDP header/value pair")
named_counter (some (headers, values)) counter = value_at values counter (index_of counter headers)

unfoldable pub parse_udp_named_counter : String → String → Result ℤ
unfolding udp_lines index_of
parse_udp_named_counter text counter = named_counter (last_two (udp_lines text)) counter

abbrev pub parse_udp_rcvbuf_errors : String → Result ℤ
parse_udp_rcvbuf_errors text = parse_udp_named_counter text "RcvbufErrors"

abbrev pub parse_udp_sndbuf_errors : String → Result ℤ
parse_udp_sndbuf_errors text = parse_udp_named_counter text "SndbufErrors"

abbrev pub last_field : List String → Option String
last_field [] = none
last_field (field ∷ []) = some field
last_field (field ∷ next ∷ fields) = last_field (next ∷ fields)

-- `sum(int(fields[-1]) for fields in lines)`, of the lines that are not blank
unfoldable pub sum_last : List String → Result ℤ
sum_last [] = ok (pos 0)
sum_last (line ∷ lines) =
    let rest = sum_last lines in
    if is_white line
    then rest
    else (read_field (last_field (split_words line)) >>= λ n. rest >>= λ m. ok (n +ℤ m))

unfoldable pub parse_udp_socket_drops : String → Result ℤ
unfolding splitlines sum_last
parse_udp_socket_drops text = sum_last (drop 1 (splitlines text))

-- `\w`
abbrev pub is_word : Char → Bool
is_word c =
    is_digit c
    || leb 65 (code c) && leb (code c) 90
    || code c == 95
    || leb 97 (code c) && leb (code c) 122

-- The number that the digits at the start of a text give after `value`.
unfoldable pub leading_digits : ℕ → String → ℕ
leading_digits value end_of_text = value
leading_digits value (char_before c text) =
    let rest = leading_digits (value * 10 + (code c - 48)) text in
    if is_digit c then rest else value

-- `\s*(\d+)` at the start of a text
unfoldable pub spaced_number : String → Option ℕ
unfolding leading_digits
spaced_number end_of_text = none
spaced_number (char_before c text) =
    let rest = spaced_number text in
    if is_space c
    then rest
    else if is_digit c
    then some (leading_digits 0 (char_before c text))
    else none

abbrev pub number_after : String → Option ℕ
number_after end_of_text = none
number_after (char_before c text) = if is_space c then spaced_number text else none

-- `dropped\s+(\d+)` at the start of a text
unfoldable pub dropped_here : String → Option ℕ
unfolding spaced_number
dropped_here text =
    if starts_with text "dropped" then number_after (slice text 7 (len text)) else none

abbrev pub matched : Option ℕ → List ℕ → List ℕ
matched none rest = rest
matched (some n) rest = n ∷ rest

-- `re.findall(r"\bdropped\s+(\d+)", text)`: no match begins within another one. The Boolean says
-- whether the character before is a word's.
unfoldable pub find_dropped : Bool → String → List ℕ
unfolding dropped_here
find_dropped in_word end_of_text = []
find_dropped in_word (char_before c text) =
    let rest = find_dropped (is_word c) text in
    if in_word then rest else matched (dropped_here (char_before c text)) rest

abbrev pub sum : List ℕ → ℕ
sum [] = 0
sum (n ∷ ns) = n + sum ns

abbrev pub is_empty {ℓ} : {A : Type ℓ} → List A → Bool
is_empty [] = true
is_empty (x ∷ xs) = false

unfoldable pub parse_qdisc_drops : String → Result ℤ
unfolding find_dropped is_white
parse_qdisc_drops text =
    let matches = find_dropped false text in
    raise_if (is_empty matches && not (is_white text))
      (Error.value_error "qdisc drop counter is unavailable")
    >> ok (pos (sum matches))

-- `line.partition(":")`: what stands before and after the first colon, if there is one.
unfoldable pub partition : String → Option (String × String)
partition end_of_text = none
partition (char_before c text) =
    let rest = partition text in
    if code c == 58
    then some ("", text)
    else elim rest [ none ↦ none | some p ↦ some (char_before c p.0, p.1) ]

abbrev pub statistic_of : Option (String × String) → String → Option String
statistic_of none name = none
statistic_of (some (key, value)) name = if same (strip key) name then some (strip value) else none

unfoldable pub find_statistic : List String → String → Result ℤ
unfolding partition
find_statistic [] name = err (Error.value_error (str_append "ethtool -S did not report " name))
find_statistic (line ∷ lines) name =
    let rest = find_statistic lines name in
    elim (statistic_of (partition line) name) [ none ↦ rest | some value ↦ read_int value ]

unfoldable pub parse_ethtool_statistic : String → String → Result ℤ
unfolding find_statistic splitlines
parse_ethtool_statistic text name = find_statistic (splitlines text) name
