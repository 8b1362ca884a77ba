-- ===== src/Python/Error.antt =====
-- Exceptions as values. A function that may raise returns a `Result`.
use net_latency_lab.Base.{String, ◌≡◌, refl, Bool, true, false}

-- The classes of exceptions that the program raises, or tells apart in an `except` clause.
pub data Error : Type 0 where
  key_error : String → Error
  value_error : String → Error
  type_error attribute_error index_error zero_division : Error
  runtime_error : String → Error
  -- `subprocess.TimeoutExpired`
  timeout_expired : Error
  -- the other members of TRANSPORT_FAILURES
  connection_error eof_error timeout_error ssh_exception : Error
  assertion_error : Error
  stop_iteration : Error
  os_error : Error

-- What a call comes to: an exception, or the value that it returns.
pub data Result {ℓ} (A : Type ℓ) : Type ℓ where
  err : Error → Result A
  ok : A → Result A

-- `if bad: raise exc`
abbrev pub raise_if : Bool → Error → Result (Unit {0})
raise_if false exc = ok tt
raise_if true exc = err exc

module _ {ℓ κ} {A : Type ℓ} {B : Type κ} where
  infixl 5 ◌>>=◌
  -- An exception leaves the rest of the body out.
  abbrev pub ◌>>=◌ : Result A → (A → Result B) → Result B
  err exc >>= rest = err exc
  ok value >>= rest = rest value

  -- Both halves of a body that returned.
  pub record BothReturn (m : Result A) (rest : A → Result B) (b : B) : Type (ℓ ⊔ κ) where
    pub value : A
    pub first : m ≡ ok value
    pub second : rest value ≡ ok b

  pub >>=-BothReturn :
      (m : Result A) (rest : A → Result B) {b : B} → (m >>= rest) ≡ ok b → BothReturn m rest b
  >>=-BothReturn (err exc) rest h = cc
  >>=-BothReturn (ok a) rest h = record { value = a; first = refl; second = h }

infixl 5 ◌>>◌
abbrev pub ◌>>◌ {κ} : {B : Type κ} → Result (Unit {0}) → Result B → Result B
checked >> rest = checked >>= λ _. rest
