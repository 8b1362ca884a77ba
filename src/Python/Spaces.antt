-- ===== src/Python/Spaces.antt =====
-- Python's `strip` and `split` of texts at white space, and `int` of a text. Digits are those of ASCII.
use Prim.Native.Char.{Char, code}
use Prim.Native.String.{[] as end_of_text, ◌∷◌ as char_before}
use net_latency_lab.Base.{
  ℕ, ◌+◌, ◌-◌, ◌*◌, String, Bool, true, false, not, ◌&&◌, ◌||◌, Option, none, some, List, [], ◌∷◌,
  leb, ◌==◌, if◌then◌else◌, ◌≡◌, refl,
}
use net_latency_lab.Base.Int.{ℤ, pos, negsuc}
use net_latency_lab.Python.Error.{Error, Result, ok, err}

-- The characters that `strip` takes for white space.
abbrev pub is_space : Char → Bool
is_space c =
    leb 9 (code c) && leb (code c) 13
    || leb 28 (code c) && leb (code c) 32
    || code c == 133
    || code c == 160
    || code c == 5760
    || leb 8192 (code c) && leb (code c) 8202
    || code c == 8232
    || code c == 8233
    || code c == 8239
    || code c == 8287
    || code c == 12288

-- `not text.strip()`
unfoldable pub is_white : String → Bool
is_white end_of_text = true
is_white (char_before c text) = is_space c && is_white text

unfoldable pub strip_left : String → String
strip_left end_of_text = ""
strip_left (char_before c text) =
    let rest = strip_left text in if is_space c then rest else char_before c text

unfoldable pub strip_right : String → String
unfolding is_white
strip_right end_of_text = ""
strip_right (char_before c text) =
    let rest = strip_right text in if is_space c && is_white text then "" else char_before c rest

-- `text.strip()`
unfoldable pub strip : String → String
unfolding strip_left strip_right
strip text = strip_right (strip_left text)

abbrev pub begins_with_space : String → Bool
begins_with_space end_of_text = true
begins_with_space (char_before c text) = is_space c

-- A character before the word that follows it at once, or else alone.
abbrev pub extend : Char → Bool → List String → List String
extend c true words = char_before c "" ∷ words
extend c false [] = char_before c "" ∷ []
extend c false (word ∷ words) = char_before c word ∷ words

-- `text.split()`
unfoldable pub split_words : String → List String
split_words end_of_text = []
split_words (char_before c text) =
    let rest = split_words text in
    if is_space c then rest else extend c (begins_with_space text) rest

abbrev pub is_digit : Char → Bool
is_digit c = leb 48 (code c) && leb (code c) 57

-- The digits of a number, with single underscores between them; at the start and after an underscore
-- a digit must come.
unfoldable pub read_digits : ℕ → Bool → String → Option ℕ
read_digits value true end_of_text = none
read_digits value false end_of_text = some value
read_digits value wants_digit (char_before c text) =
    let rest = read_digits (value * 10 + (code c - 48)) false text in
    let skipped = read_digits value true text in
    if is_digit c then rest else if code c == 95 && not wants_digit then skipped else none

abbrev pub positive : Option ℕ → Option ℤ
positive none = none
positive (some n) = some (pos n)

abbrev pub negated : Option ℕ → Option ℤ
negated none = none
negated (some n) = some (if n == 0 then pos 0 else negsuc (n - 1))

abbrev pub read_signed : String → Option ℤ
read_signed end_of_text = none
read_signed (char_before c text) =
    if code c == 45
    then negated (read_digits 0 true text)
    else if code c == 43
    then positive (read_digits 0 true text)
    else positive (read_digits 0 true (char_before c text))

abbrev pub int_or_error : Option ℤ → Result ℤ
int_or_error none = err (Error.value_error "invalid literal for int() with base 10")
int_or_error (some n) = ok n

-- `int(text)`
unfoldable pub read_int : String → Result ℤ
unfolding strip read_digits
read_int text = int_or_error (read_signed (strip text))

read_int_text : read_int " -1_024\n" ≡ ok (negsuc 1023)
unfolding read_int
read_int_text = refl
