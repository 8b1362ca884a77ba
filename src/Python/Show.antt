-- ===== src/Python/Show.antt =====
-- `str` of an integer, the format `{:02d}`, and the concatenation of texts.
use net_latency_lab.Base.{
  ℕ, zero, suc, ◌/◌, ◌%◌, String, true, false, List, [], ◌∷◌, ltb, ◌==◌, if◌then◌else◌, ◌≡◌, refl,
}
use net_latency_lab.Base.Int.{ℤ, pos, negsuc}
use Prim.Native.String.{◌++◌ as str_append}

-- An f-string: the texts of its parts, one after another.
abbrev pub concat : List String → String
concat [] = ""
concat (part ∷ parts) = str_append part (concat parts)

-- `separator.join(parts)`
unfoldable pub join : String → List String → String
join separator [] = ""
join separator (part ∷ []) = part
join separator (part ∷ next ∷ parts) =
    str_append part (str_append separator (join separator (next ∷ parts)))

abbrev pub digit : ℕ → String
digit n =
    if n == 0
    then "0"
    else if n == 1
    then "1"
    else if n == 2
    then "2"
    else if n == 3
    then "3"
    else if n == 4
    then "4"
    else if n == 5
    then "5"
    else if n == 6
    then "6"
    else if n == 7
    then "7"
    else if n == 8
    then "8"
    else "9"

-- The digits of a number before a text. Each step divides by ten, so a fuel of n + 1 is enough.
unfoldable pub digits : ℕ → ℕ → String → String
digits zero n text = text
digits (suc fuel) n text = elim (ltb n 10) [
  | true ↦ str_append (digit n) text
  | false ↦ digits fuel (n / 10) (str_append (digit (n % 10)) text)
]

unfoldable pub str_nat : ℕ → String
unfolding digits
str_nat n = digits (suc n) n ""

unfoldable pub str_int : ℤ → String
unfolding str_nat
str_int (pos n) = str_nat n
str_int (negsuc n) = str_append "-" (str_nat (suc n))

-- `f"{n:02d}"`
unfoldable pub two_digits : ℕ → String
unfolding str_nat
two_digits n = if ltb n 10 then str_append "0" (str_nat n) else str_nat n

str_int_negative : str_int (negsuc 1023) ≡ "-1024"
unfolding str_int
str_int_negative = refl

two_digits_small : two_digits 7 ≡ "07"
unfolding two_digits
two_digits_small = refl
