-- ===== src/Traces/Bytes.antt =====
-- Little-endian fields of a byte string, as `struct` reads and writes them with `<`.
use net_latency_lab.Base.{
  ℕ, zero, suc, ◌+◌, ◌-◌, ◌*◌, ◌/◌, ◌%◌, ◌<◌, ◌≡◌, refl, ap, List, [], ◌∷◌, ◌++◌, Bool, true, false,
  ◌&&◌, ◌==◌, ltb, if◌then◌else◌, length, arith,
}
use net_latency_lab.Base.Int.{ℤ, pos, negsuc}

-- 256 to the number of bytes: the first value that does not fit.
abbrev pub limit : ℕ → ℕ
limit zero = 1
limit (suc n) = 256 * limit n

-- An unsigned field of `n` bytes, and the bytes behind it.
unfoldable pub read_le : ℕ → List ℕ → ℕ × List ℕ
read_le zero bytes = (0, bytes)
read_le (suc n) [] = (0, [])
read_le (suc n) (b ∷ bytes) = let (v, rest) = read_le n bytes in (b + 256 * v, rest)

unfoldable pub encode_le : ℕ → ℕ → List ℕ
encode_le zero v = []
encode_le (suc n) v = v % 256 ∷ encode_le n (v / 256)

-- Two's complement: the signed reading of an unsigned field.
unfoldable pub signed : ℕ → ℕ → ℤ
signed n v = if ltb v (limit n / 2) then pos v else negsuc (limit n - v - 1)

pub read_le-encode_le :
    (n v : ℕ) (rest : List ℕ) → v < limit n → read_le n (encode_le n v ++ rest) ≡ (v, rest)
unfolding read_le encode_le
read_le-encode_le zero v rest h = ground arith
read_le-encode_le (suc n) v rest h =
    let ih = read_le-encode_le n (v / 256) rest (omega arith) in ground (arith, ih)

pub length-encode_le : (n v : ℕ) → length (encode_le n v) ≡ n
unfolding encode_le
length-encode_le zero v = refl
length-encode_le (suc n) v = ap suc (length-encode_le n (v / 256))

-- `raw.startswith(prefix)`
abbrev pub starts_with : List ℕ → List ℕ → Bool
starts_with [] raw = true
starts_with (b ∷ prefix) [] = false
starts_with (b ∷ prefix) (c ∷ raw) = b == c && starts_with prefix raw

pub starts_with-append : (prefix rest : List ℕ) → starts_with prefix (prefix ++ rest) ≡ true
starts_with-append [] rest = refl
starts_with-append (b ∷ prefix) rest = ground (arith, starts_with-append prefix rest)
