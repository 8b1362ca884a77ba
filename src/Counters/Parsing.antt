-- ===== src/Counters/Parsing.antt =====
-- `parse_counter` (main.py): the sample of one section, read by the counter's parser.
use net_latency_lab.Base.{String, Option, none, some, ◌≡◌, refl, ◌↔◌, Option-cases, inl, inr, arith}
use net_latency_lab.Base.Int.{ℤ}
use net_latency_lab.Python.Error.{Error, Result, ok, err}
use net_latency_lab.Counters.Deltas.{Sample}
use net_latency_lab.Verdict.State.{Probe}

-- What the parser answers of a value; of None it raises AttributeError.
abbrev pub parsed : (String → Result ℤ) → Option String → Result ℤ
parsed parser none = err Error.attribute_error
parsed parser (some text) = parser text

-- `str_exc` is the text of an exception.
abbrev pub sample_of : (Error → String) → Result ℤ → Sample
sample_of str_exc (ok value) = record { value = some value; error = none }
sample_of str_exc (err e) = record { value = none; error = some (str_exc e) }

abbrev pub refused : String → Sample
refused message = record { value = none; error = some message }

unfoldable pub parse_counter : (Error → String) → Probe → (String → Result ℤ) → Sample
parse_counter str_exc sample parser = elim sample.error [
  | some message ↦ refused message
  | none ↦ sample_of str_exc (parsed parser sample.value)
]

-- The parser read the number in the text of a sample without an error.
abbrev pub IsParsed : Probe → (String → Result ℤ) → ℤ → Type 0
IsParsed sample parser value =
    (text : String) × (sample.error ≡ none) × (sample.value ≡ some text) × (parser text ≡ ok value)

parsed-ok :
    (parser : String → Result ℤ) (value : Option String) (v : ℤ)
    → parsed parser value ≡ ok v
    → (text : String) × (value ≡ some text) × (parser text ≡ ok v)
parsed-ok parser none v h = cc
parsed-ok parser (some text) v h = (text, refl, h)

sample_of-value :
    (str_exc : Error → String) (r : Result ℤ) (v : ℤ)
    → (sample_of str_exc r).value ≡ some v
    → r ≡ ok v
sample_of-value str_exc (ok w) v h = ground arith
sample_of-value str_exc (err e) v h = cc

-- A counter gets a value exactly when its probe did not fail and its parser read that number in the probe's
-- text; an exception of the parser leaves no value.
pub parse_counter-IsParsed :
    (str_exc : Error → String) (sample : Probe) (parser : String → Result ℤ) (v : ℤ)
    → ((parse_counter str_exc sample parser).value ≡ some v) ↔ IsParsed sample parser v
unfolding parse_counter
parse_counter-IsParsed str_exc sample parser v = elim (Option-cases sample.error) [
  | inl fine ↦ rw fine (
    λ h.
        let (text, found, read) = parsed-ok parser sample.value v (sample_of-value str_exc _ v h) in
        (text, refl, found, read),
    λ h. let (text, good, found, read) = h in rw (found, read),
  )
  | inr (message, failed) ↦ rw failed (λ h. cc, λ h. let (text, good, found, read) = h in cc)
]
